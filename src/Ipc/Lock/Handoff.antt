-- ===== src/Ipc/Lock/Handoff.antt =====
-- Releasing a lock hands it to the longest waiter, and an exiting process releases all it owns.
use yalnix.Base.{
  ℕ, zero, suc, ◌+◌, ◌<◌, ◌≤◌, ◌≡◌, refl, ap, sym, ◌∙◌, ◌≢◌, ◌⊎◌, inl, inr, false, ◌&&◌, List, [],
  ◌∷◌, arith, ◌==◌, leb, ltb, if◌then◌else◌, update, Bool-cases, pos,
}
use yalnix.State.{Kernel, IpcObject, free, pipe, lock, cvar, LockState, error, success}
use yalnix.Process.{process_make_ready}
use yalnix.Process.Ready.{Awake}
use yalnix.Ipc.Wake.{wake-Awake}
use yalnix.Ipc.Wake as Wake
use yalnix.Ipc.{Outcome, returned, as_lock, get_lock, wake}
use yalnix.Ipc.Objects.{wake-objects}
use yalnix.Ipc.Lock.{
  new_lock, release_to, lock_release, sys_release, release_if_owned, release_owned,
  ipc_process_exit,
}

-- A lock that its owner lets go: the longest waiter owns it, or nobody.
abbrev next_owner : List ℕ → LockState
next_owner [] = new_lock
next_owner (p ∷ q) = record { owner = p; waiters = q }

release_to-objects :
    (id : ℕ) (q : List ℕ) (k : Kernel)
    → (release_to id q k).objects ≡ update k.objects id (lock (next_owner q))
release_to-objects id [] k = refl
release_to-objects id (p ∷ q) k = wake-objects p _

-- The longest waiter, if there is one, can run.
abbrev pub CanRun : List ℕ → Kernel → Type 0
CanRun [] k = Unit {0}
CanRun (p ∷ q) k = Wake.CanRun k p

abbrev pub Woken : List ℕ → Kernel → Type 0
Woken [] k = Unit {0}
Woken (p ∷ q) k = Awake p k

-- What a release gives: to the owner, success, the lock at the longest waiter, and that waiter
-- ready; to another process an error.
abbrev pub Released : (id : ℕ) → LockState → Kernel → Outcome × Kernel → Type 0
Released id l k (o, k') =
    ((l.owner ≡ k.current)
      × (o ≡ returned success)
      × (k'.objects ≡ update k.objects id (lock (next_owner l.waiters)))
      × Woken l.waiters k')
    ⊎ ((l.owner ≢ k.current) × (o ≡ returned error) × (k' ≡ k))

release_to-Woken : (id : ℕ) (q : List ℕ) (k : Kernel) → CanRun q k → Woken q (release_to id q k)
release_to-Woken id [] k c = tt
release_to-Woken id (p ∷ q) k c = wake-Awake p _ c

-- SysRelease of an existing lock, whose longest waiter, if any, is not the idle process and has not exited,
-- refuses any process but the owner, and changes nothing then. To the
-- owner it returns success; the longest waiter owns the lock then, is ready and stands in the ready
-- queue, or the lock is free where nobody waits. No other object changes.
pub sys_release-Released :
    (id : ℕ) (l : LockState) (k : Kernel)
    → id < 128
    → k.objects id ≡ lock l
    → CanRun l.waiters k
    → Released id l k (sys_release (pos id) k)
unfolding sys_release get_lock lock_release
sys_release-Released id l k in_table at c =
    let here : leb 128 id ≡ false = ground arith in
    rw (here, sys_release)
      (rw (at, sys_release)
        (elim (Bool-cases (l.owner == k.current)) [
          | inl mine ↦ rw mine (
              inl (
                ground arith,
                refl,
                release_to-objects id l.waiters k,
                release_to-Woken id l.waiters k c,
              ))
          | inr other ↦ rw other (inr (ground arith, refl, refl))
        ]))

-- What IpcProcessExit does to one object.
abbrev pub let_go : ℕ → IpcObject → IpcObject
let_go proc free = free
let_go proc (pipe p) = pipe p
let_go proc (lock l) = if l.owner == proc then lock (next_owner l.waiters) else lock l
let_go proc (cvar q) = cvar q

release_if_owned-objects :
    (proc id : ℕ) (k : Kernel) (o : IpcObject)
    → k.objects id ≡ o
    → (j : ℕ)
    → (release_if_owned proc id (as_lock o) k).objects j
      ≡ (if id == j then let_go proc o else k.objects j)
unfolding lock_release
release_if_owned-objects proc id k free e j = ground arith
release_if_owned-objects proc id k (pipe p) e j = ground arith
release_if_owned-objects proc id k (cvar q) e j = ground arith
release_if_owned-objects proc id k (lock l) e j = elim (Bool-cases (l.owner == proc)) [
  | inl mine ↦ rw (mine, release_to-objects id l.waiters k)
  | inr other ↦ rw other (ground arith)
]

release_owned-objects :
    (left id proc : ℕ) (k : Kernel) (j : ℕ)
    → (release_owned left id proc k).objects j
      ≡ (if leb id j && ltb j (id + left) then let_go proc (k.objects j) else k.objects j)
unfolding release_owned
release_owned-objects zero id proc k j = ground arith
release_owned-objects (suc left) id proc k j =
    let step = release_if_owned-objects proc id k (k.objects id) refl j in
    release_owned-objects left (id + 1) proc _ j ∙ rw step (ground arith)

-- What IpcProcessExit does to the objects.
pub exit-objects :
    (proc : ℕ) (k : Kernel) (j : ℕ)
    → (ipc_process_exit proc k).objects j
      ≡ (if ltb j 128 then let_go proc (k.objects j) else k.objects j)
unfolding ipc_process_exit
exit-objects proc k j = release_owned-objects 128 0 proc k j ∙ ground arith

-- Calls of SysRelease, one after another, for the `left` slots from `id` on.
pub release_each : (left id : ℕ) → Kernel → Kernel
release_each zero id k = k
release_each (suc left) id k = release_each left (id + 1) (sys_release (pos id) k).1

-- One round of IpcProcessExit's loop is a call of SysRelease.
round :
    (id : ℕ) (k : Kernel) (o : IpcObject)
    → k.objects id ≡ o
    → id < 128
    → release_if_owned k.current id (as_lock o) k ≡ (sys_release (pos id) k).1
unfolding sys_release get_lock
round id k free e lt =
    let here : leb 128 id ≡ false = ground arith in
    rw (here, sys_release) (rw (e, sys_release) refl)
round id k (pipe p) e lt =
    let here : leb 128 id ≡ false = ground arith in
    rw (here, sys_release) (rw (e, sys_release) refl)
round id k (cvar q) e lt =
    let here : leb 128 id ≡ false = ground arith in
    rw (here, sys_release) (rw (e, sys_release) refl)
round id k (lock l) e lt =
    let here : leb 128 id ≡ false = ground arith in
    rw (here, sys_release)
      (rw (e, sys_release)
        (elim (Bool-cases (l.owner == k.current)) [
          | inl mine ↦ rw mine refl
          | inr other ↦ rw other refl
        ]))

wake-current : (p : ℕ) (k : Kernel) → (wake p k).current ≡ k.current
unfolding wake process_make_ready
wake-current p k = ground arith

release_to-current : (id : ℕ) (q : List ℕ) (k : Kernel) → (release_to id q k).current ≡ k.current
release_to-current id [] k = refl
release_to-current id (p ∷ q) k = wake-current p _

release-current :
    (id : ℕ) (k : Kernel) (o : IpcObject)
    → (release_if_owned k.current id (as_lock o) k).current ≡ k.current
unfolding lock_release
release-current id k free = refl
release-current id k (pipe p) = refl
release-current id k (cvar q) = refl
release-current id k (lock l) = elim (Bool-cases (l.owner == k.current)) [
  | inl mine ↦ rw mine (release_to-current id l.waiters k)
  | inr other ↦ rw other refl
]

release_owned-each :
    (left id : ℕ) (k : Kernel)
    → id + left ≤ 128
    → release_owned left id k.current k ≡ release_each left id k
unfolding release_owned release_each
release_owned-each zero id k le = refl
release_owned-each (suc left) id k le =
    let next = release_if_owned k.current id (as_lock (k.objects id)) k in
    ap (λ c. release_owned left (id + 1) c next) (sym (release-current id k (k.objects id)))
    ∙ release_owned-each left (id + 1) next (omega arith)
    ∙ ap (release_each left (id + 1)) (round id k (k.objects id) refl (omega arith))

-- IpcProcessExit for the process that runs leaves the kernel as the process's own calls of SysRelease for
-- every object, from 0 to 127, would; so the locks that the process owned go to their longest waiters, or
-- are free, and every other object is as it was.
pub ipc_process_exit-let_go :
    (k : Kernel)
    → (ipc_process_exit k.current k ≡ release_each 128 0 k)
      × ((j : ℕ)
          → (ipc_process_exit k.current k).objects j
            ≡ (if ltb j 128 then let_go k.current (k.objects j) else k.objects j))
unfolding ipc_process_exit
ipc_process_exit-let_go k = (release_owned-each 128 0 k (omega arith), exit-objects k.current k)
