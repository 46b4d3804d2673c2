-- ===== src/Ipc/Invariant/Steps.antt =====
-- Every system call of src/ipc.c keeps the objects sound.
use yalnix.Base.{
  ℕ, ◌≡◌, refl, ◌≢◌, ◌⊎◌, inl, inr, ◌||◌, List, [], ◌∷◌, arith, ◌==◌, NotIn, Bool-cases,
  Option-cases, ℤ, pos, to_ℕ,
}
use yalnix.Hardware.{Hardware}
use yalnix.State.{Kernel, lock, LockState}
use yalnix.Queue.Refine.{NotIn-append}
use yalnix.Ipc.{get_lock, no_process}
use yalnix.Ipc.Objects.{wake-objects, block_on-objects}
use yalnix.Ipc.Lock.{
  new_lock, release_to, lock_release, sys_release, take_or_wait, lock_acquire, acquire_resume,
}
use yalnix.Ipc.Invariant.{AllSound, update-AllSound, get_lock-IsSound}

module _ (k : Kernel) (all : AllSound k.objects) where
  pub release_to-AllSound : (id : ℕ) (q : List ℕ) → NotIn 0 q → AllSound (release_to id q k).objects
  release_to-AllSound id [] nz = update-AllSound k.objects id (lock new_lock) all (tt, inl refl)
  release_to-AllSound id (p ∷ q) nz =
      rw (wake-objects p _) (
        update-AllSound k.objects id (lock (record { owner = p; waiters = q })) all
          (nz.1, inr nz.0))

  pub lock_release-AllSound :
      (id : ℕ) (l : LockState) → NotIn 0 l.waiters → AllSound (lock_release id l k).objects
  unfolding lock_release
  lock_release-AllSound id l nz = release_to-AllSound id l.waiters nz

  pub sys_release-AllSound : (id : ℤ) → AllSound (sys_release id k).1.objects
  unfolding sys_release
  sys_release-AllSound id = elim (Option-cases (get_lock id k)) [
    | inl e ↦ rw (e, sys_release) all
    | inr (l, e) ↦
        rw (e, sys_release)
          (elim (Bool-cases (l.owner == k.current)) [
            | inl mine ↦
                rw mine (lock_release-AllSound (to_ℕ id) l (get_lock-IsSound id k l all e).0)
            | inr other ↦ rw other all
          ])
  ]

  module _ ⦃hw : Hardware⦄ (user : k.current ≢ 0) where
    take_or_wait-AllSound :
        (id : ℕ) (l : LockState)
        → NotIn 0 l.waiters
        → (l.waiters ≡ []) ⊎ (l.owner ≢ 0)
        → AllSound (take_or_wait id l k).1.objects
    unfolding take_or_wait
    take_or_wait-AllSound id l nz h = elim (Bool-cases (l.owner == 0)) [
      | inl idle ↦ rw idle (update-AllSound k.objects id _ all (nz, inl (ground arith)))
      | inr held ↦ rw held (
          rw (block_on-objects _ _ _) (
            update-AllSound k.objects id _ all
              (NotIn-append 0 l.waiters (k.current ∷ []) nz (user, tt), inr (ground arith))))
    ]

    pub lock_acquire-AllSound : (id : ℤ) → AllSound (lock_acquire id k).1.objects
    unfolding lock_acquire
    lock_acquire-AllSound id = elim (Option-cases (get_lock id k)) [
      | inl e ↦ rw (e, lock_acquire) all
      | inr (l, e) ↦
          rw (e, lock_acquire)
            (elim (Bool-cases (no_process k || l.owner == k.current)) [
              | inl refused ↦ rw refused all
              | inr goes ↦
                  let (nz, h) = get_lock-IsSound id k l all e in
                  rw goes (take_or_wait-AllSound (to_ℕ id) l nz h)
            ])
    ]

    pub acquire_resume-AllSound : (id : ℕ) → AllSound (acquire_resume id k).1.objects
    unfolding acquire_resume
    acquire_resume-AllSound id = elim (Option-cases (get_lock (pos id) k)) [
      | inl e ↦ rw (e, acquire_resume) all
      | inr (l, e) ↦
          rw (e, acquire_resume)
            (elim (Bool-cases (l.owner == k.current)) [
              | inl mine ↦ rw mine all
              | inr other ↦
                  let (nz, h) = get_lock-IsSound (pos id) k l all e in
                  rw other (take_or_wait-AllSound id l nz h)
            ])
    ]
