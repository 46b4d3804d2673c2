-- ===== src/Ipc/Cvar.antt =====
-- Condition variables and SysReclaim of src/ipc.c.
use yalnix.Base.{
  ℕ, Bool, false, not, ◌&&◌, ◌||◌, none, some, List, [], ◌∷◌, ◌==◌, if◌then◌else◌, ℤ, pos, to_ℕ,
  store_int,
}
use yalnix.Hardware.{Hardware}
use yalnix.State.{
  Kernel, in_cvar_wait, cvar_waiters, IpcObject, free, pipe, lock, cvar, LockState, modify, error,
  success,
}
use yalnix.Queue.Fifo.{push_back, is_empty}
use yalnix.Ipc.{
  Outcome, returned, switched, put_object, out_of_range, alloc_object, get_lock, get_cvar, wake,
  wake_all, block_on,
}
use yalnix.Ipc.Lock.{lock_release, lock_acquire}

unfoldable pub sys_cvar_init : (cvar_idp : ℕ) → Kernel → Outcome × Kernel
sys_cvar_init cvar_idp k = if cvar_idp == 0 then (returned error, k) else elim (alloc_object k) [
  | none ↦ (returned error, k)
  | some id ↦ (
    returned success,
    modify k.current (λ b. record b { space = store_int cvar_idp (pos id) b.space })
        (put_object id (cvar []) k),
  )
]

-- WakeOne on the waiters of the variable in slot `id`.
abbrev pub wake_first : (id : ℕ) → List ℕ → Kernel → Kernel
wake_first id [] k = k
wake_first id (p ∷ q) k = wake p (put_object id (cvar q) k)

unfoldable pub sys_cvar_signal : ℤ → Kernel → Outcome × Kernel
sys_cvar_signal cvar_id k = elim (get_cvar cvar_id k) [
  | none ↦ (returned error, k)
  | some q ↦ (returned success, wake_first (to_ℕ cvar_id) q k)
]

unfoldable pub sys_cvar_broadcast : ℤ → Kernel → Outcome × Kernel
sys_cvar_broadcast cvar_id k = elim (get_cvar cvar_id k) [
  | none ↦ (returned error, k)
  | some q ↦ (returned success, wake_all q (put_object (to_ℕ cvar_id) (cvar []) k))
]

module _ ⦃hw : Hardware⦄ where
  -- The lock is given up first, then the process waits. The two are different objects, so the
  -- release leaves the variable's waiters `q`.
  abbrev pub wait_on : (cvar_id lock_id : ℕ) → List ℕ → LockState → Kernel → Outcome × Kernel
  wait_on cvar_id lock_id q l k =
      if l.owner == k.current
      then (
        switched,
        block_on (cvar_waiters cvar_id) (in_cvar_wait cvar_id lock_id)
            (put_object cvar_id (cvar (push_back q k.current)) (lock_release lock_id l k)),
      )
      else (returned error, k)

  unfoldable pub sys_cvar_wait : (cvar_id lock_id : ℤ) → Kernel → Outcome × Kernel
  sys_cvar_wait cvar_id lock_id k = elim (get_cvar cvar_id k) [
    | none ↦ (returned error, k)
    | some q ↦ elim (get_lock lock_id k) [
      | none ↦ (returned error, k)
      | some l ↦ wait_on (to_ℕ cvar_id) (to_ℕ lock_id) q l k
    ]
  ]

  -- SysCvarWait behind its wait.
  unfoldable pub cvar_wait_resume : (cvar_id lock_id : ℕ) → Kernel → Outcome × Kernel
  cvar_wait_resume cvar_id lock_id k = elim (get_cvar (pos cvar_id) k) [
    | none ↦ (returned error, k)
    | some q ↦ lock_acquire (pos lock_id) k
  ]

-- Has nobody a hold on the object?
abbrev pub is_unused : IpcObject → Bool
is_unused free = false
is_unused (pipe p) = is_empty p.readers
is_unused (lock l) = l.owner == 0 && is_empty l.waiters
is_unused (cvar q) = is_empty q

-- SysReclaim
unfoldable pub sys_reclaim : ℤ → Kernel → Outcome × Kernel
sys_reclaim id k =
    if out_of_range id || not (is_unused (k.objects (to_ℕ id)))
    then (returned error, k)
    else (returned success, put_object (to_ℕ id) free k)
