-- ===== src/Ipc/Lock.antt =====
-- Locks: SysLockInit, SysAcquire, SysRelease, LockAcquire, LockRelease and IpcProcessExit of
-- src/ipc.c.
pub mod Handoff
use yalnix.Base.{
  ℕ, zero, suc, ◌+◌, Bool, true, false, not, ◌&&◌, ◌||◌, Option, none, some, List, [], ◌∷◌, ◌==◌,
  if◌then◌else◌, ℤ, pos, is_neg, to_ℕ, store_int,
}
use yalnix.Hardware.{Hardware}
use yalnix.State.{
  Kernel, Resume, in_acquire, QueueRef, lock_waiters, IpcObject, lock, LockState, modify, error,
  success,
}
use yalnix.Queue.Fifo.{push_back}
use yalnix.Ipc.{
  Outcome, returned, switched, ipc_max_objects, put_object, alloc_object, as_lock, get_lock, wake,
  block_on, no_process,
}

abbrev pub new_lock : LockState
new_lock = record { owner = 0; waiters = [] }

unfoldable pub sys_lock_init : (lock_idp : ℕ) → Kernel → Outcome × Kernel
sys_lock_init lock_idp k = if lock_idp == 0 then (returned error, k) else elim (alloc_object k) [
  | none ↦ (returned error, k)
  | some id ↦ (
    returned success,
    modify k.current (λ b. record b { space = store_int lock_idp (pos id) b.space })
        (put_object id (lock new_lock) k),
  )
]

-- LockRelease of the lock in slot `id`: to the longest waiter, if there is one.
abbrev pub release_to : (id : ℕ) → List ℕ → Kernel → Kernel
release_to id [] k = put_object id (lock new_lock) k
release_to id (p ∷ q) k = wake p (put_object id (lock (record { owner = p; waiters = q })) k)

unfoldable pub lock_release : (id : ℕ) → LockState → Kernel → Kernel
lock_release id l k = release_to id l.waiters k

unfoldable pub sys_release : ℤ → Kernel → Outcome × Kernel
sys_release lock_id k = elim (get_lock lock_id k) [
  | none ↦ (returned error, k)
  | some l ↦
      if l.owner == k.current
      then (returned success, lock_release (to_ℕ lock_id) l k)
      else (returned error, k)
]

-- The body of IpcProcessExit's loop.
abbrev pub release_if_owned : (proc id : ℕ) → Option LockState → Kernel → Kernel
release_if_owned proc id none k = k
release_if_owned proc id (some l) k = if l.owner == proc then lock_release id l k else k

unfoldable pub release_owned : (left id proc : ℕ) → Kernel → Kernel
release_owned zero id proc k = k
release_owned (suc left) id proc k =
    release_owned left (id + 1) proc (release_if_owned proc id (as_lock (k.objects id)) k)

unfoldable pub ipc_process_exit : (proc : ℕ) → Kernel → Kernel
ipc_process_exit proc k = release_owned ipc_max_objects 0 proc k

module _ ⦃hw : Hardware⦄ where
  -- LockAcquire's loop: take a free lock, or wait for it.
  unfoldable pub take_or_wait : (id : ℕ) → LockState → Kernel → Outcome × Kernel
  take_or_wait id l k =
      if l.owner == 0
      then (returned success, put_object id (lock (record l { owner = k.current })) k)
      else (
        switched,
        block_on (lock_waiters id) (in_acquire id)
            (put_object id (lock (record l { waiters = push_back l.waiters k.current })) k),
      )

  unfoldable pub lock_acquire : ℤ → Kernel → Outcome × Kernel
  lock_acquire lock_id k = elim (get_lock lock_id k) [
    | none ↦ (returned error, k)
    | some l ↦
        if no_process k || l.owner == k.current
        then (returned error, k)
        else take_or_wait (to_ℕ lock_id) l k
  ]

  -- LockAcquire behind a wait.
  unfoldable pub acquire_resume : (id : ℕ) → Kernel → Outcome × Kernel
  acquire_resume id k = elim (get_lock (pos id) k) [
    | none ↦ (returned error, k)
    | some l ↦ if l.owner == k.current then (returned success, k) else take_or_wait id l k
  ]

  unfoldable pub sys_acquire : ℤ → Kernel → Outcome × Kernel
  sys_acquire lock_id k = lock_acquire lock_id k
