-- ===== src/Ipc/Invariant.antt =====
-- What holds of every IPC object between system calls.
pub mod Calls
pub mod Run
pub mod Steps
use yalnix.Base.{
  ℕ, ◌+◌, ◌%◌, ◌^◌, ◌≤◌, ◌<◌, ◌≡◌, refl, ◌≢◌, ◌⊎◌, inl, inr, Bool, true, false, ◌||◌, Option, none,
  some, List, [], ◌∷◌, ◌++◌, arith, ◌==◌, ltb, if◌then◌else◌, update, NotIn, Bool-cases,
  Option-cases, ℤ, pos, to_ℕ,
}
use yalnix.Hardware.{Hardware}
use yalnix.State.{Kernel, IpcObject, free, pipe, lock, cvar, PipeState, LockState}
use yalnix.Ipc.{out_of_range, as_pipe, as_lock, as_cvar, get_pipe, get_lock, get_cvar}
use yalnix.Ipc.Pipe.Contents.{IsPipe}

-- A pipe has a reader waiting only while it is empty; a lock has a waiter only while it has an
-- owner.
abbrev pub IsSound : IpcObject → Type 0
IsSound free = Unit {0}
IsSound (pipe p) = IsPipe p × ((p.readers ≡ []) ⊎ (p.len ≡ 0))
IsSound (lock l) = NotIn 0 l.waiters × ((l.waiters ≡ []) ⊎ (l.owner ≢ 0))
IsSound (cvar q) = Unit {0}

abbrev pub AllSound : (ℕ → IpcObject) → Type 0
AllSound objects = (i : ℕ) → IsSound (objects i)

pub update-AllSound :
    (objects : ℕ → IpcObject) (id : ℕ) (o : IpcObject)
    → AllSound objects
    → IsSound o
    → AllSound (update objects id o)
update-AllSound objects id o all sound i = elim (Bool-cases (id == i)) [
  | inl here ↦ rw here sound
  | inr there ↦ rw there (all i)
]

as_pipe-some : (o : IpcObject) (p : PipeState) → as_pipe o ≡ some p → o ≡ pipe p
as_pipe-some free p e = cc
as_pipe-some (pipe q) p e = cc
as_pipe-some (lock l) p e = cc
as_pipe-some (cvar q) p e = cc

as_lock-some : (o : IpcObject) (l : LockState) → as_lock o ≡ some l → o ≡ lock l
as_lock-some free l e = cc
as_lock-some (pipe q) l e = cc
as_lock-some (lock m) l e = cc
as_lock-some (cvar q) l e = cc

module _ (id : ℤ) (k : Kernel) where
  pub get_pipe-some : (p : PipeState) → get_pipe id k ≡ some p → k.objects (to_ℕ id) ≡ pipe p
  unfolding get_pipe
  get_pipe-some p e = elim (Bool-cases (out_of_range id)) [
    | inl out ↦ cc (rw out at e)
    | inr inside ↦ as_pipe-some (k.objects (to_ℕ id)) p (rw inside at e)
  ]

  pub get_lock-some : (l : LockState) → get_lock id k ≡ some l → k.objects (to_ℕ id) ≡ lock l
  unfolding get_lock
  get_lock-some l e = elim (Bool-cases (out_of_range id)) [
    | inl out ↦ cc (rw out at e)
    | inr inside ↦ as_lock-some (k.objects (to_ℕ id)) l (rw inside at e)
  ]

  pub get_pipe-IsSound :
      (p : PipeState)
      → AllSound k.objects
      → get_pipe id k ≡ some p
      → IsPipe p × ((p.readers ≡ []) ⊎ (p.len ≡ 0))
  get_pipe-IsSound p all e = rw (get_pipe-some p e) at (all (to_ℕ id))

  pub get_lock-IsSound :
      (l : LockState)
      → AllSound k.objects
      → get_lock id k ≡ some l
      → NotIn 0 l.waiters × ((l.waiters ≡ []) ⊎ (l.owner ≢ 0))
  get_lock-IsSound l all e = rw (get_lock-some l e) at (all (to_ℕ id))
