-- ===== src/Ipc/Invariant/Calls.antt =====
-- Pipes, condition variables, exit and reclaim keep the objects sound; and so does any call.
use yalnix.Base.{
  ℕ, zero, suc, ◌+◌, ◌%◌, ◌^◌, ◌≤◌, ◌<◌, ◌≡◌, refl, ◌≢◌, ◌⊎◌, inl, inr, Bool, not, ◌||◌, Option,
  none, some, List, [], ◌∷◌, arith, ◌==◌, Bool-cases, Option-cases, ℤ, pos, to_ℕ, is_neg,
}
use yalnix.Hardware.{Hardware}
use yalnix.State.{Kernel, free, pipe, lock, cvar, PipeState, LockState}
use yalnix.Ipc.{out_of_range, get_pipe, get_lock, get_cvar, as_lock, alloc_object, no_process}
use yalnix.Ipc.Objects.{wake-objects, wake_all-objects, block_on-objects}
use yalnix.Ipc.Pipe.{
  new_pipe, sys_pipe_init, deliver, pipe_read_loop, sys_pipe_read, Ensured, roomy, no_memory,
  no_end, pipe_ensure_capacity, fill, sys_pipe_write, bad_buffer,
}
use yalnix.Ipc.Pipe.Capacity.{Roomy, pipe_ensure_capacity-Roomy}
use yalnix.Ipc.Pipe.Contents.{IsPipe}
use yalnix.Ipc.Lock.{sys_lock_init, release_if_owned, release_owned}
use yalnix.Ipc.Cvar.{
  sys_cvar_init, sys_cvar_signal, sys_cvar_broadcast, sys_cvar_wait, cvar_wait_resume, wake_first,
  sys_reclaim, is_unused,
}
use yalnix.Ipc.Invariant.{
  IsSound, AllSound, update-AllSound, get_pipe-IsSound, get_lock-IsSound, as_lock-some,
}
use yalnix.Ipc.Invariant.Steps.{lock_release-AllSound, lock_acquire-AllSound}

-- The three calls that make an object: a sound one, in a slot of the table, or nothing.
module _ (k : Kernel) (all : AllSound k.objects) where
  pub sys_lock_init-AllSound : (idp : ℕ) → AllSound (sys_lock_init idp k).1.objects
  unfolding sys_lock_init
  sys_lock_init-AllSound idp = elim (Bool-cases (idp == 0)) [
    | inl null ↦ rw null all
    | inr given ↦ rw given (elim (Option-cases (alloc_object k)) [
      | inl e ↦ rw (e, sys_lock_init) all
      | inr (id, e) ↦ rw (e, sys_lock_init) (update-AllSound k.objects id _ all (tt, inl refl))
    ])
  ]

  pub sys_cvar_init-AllSound : (idp : ℕ) → AllSound (sys_cvar_init idp k).1.objects
  unfolding sys_cvar_init
  sys_cvar_init-AllSound idp = elim (Bool-cases (idp == 0)) [
    | inl null ↦ rw null all
    | inr given ↦ rw given (elim (Option-cases (alloc_object k)) [
      | inl e ↦ rw (e, sys_cvar_init) all
      | inr (id, e) ↦ rw (e, sys_cvar_init) (update-AllSound k.objects id _ all tt)
    ])
  ]

  wake_first-AllSound : (id : ℕ) (q : List ℕ) → AllSound (wake_first id q k).objects
  wake_first-AllSound id [] = all
  wake_first-AllSound id (p ∷ q) =
      rw (wake-objects p _) (update-AllSound k.objects id (cvar q) all tt)

  pub sys_cvar_signal-AllSound : (id : ℤ) → AllSound (sys_cvar_signal id k).1.objects
  unfolding sys_cvar_signal
  sys_cvar_signal-AllSound id = elim (Option-cases (get_cvar id k)) [
    | inl e ↦ rw (e, sys_cvar_signal) all
    | inr (q, e) ↦ rw (e, sys_cvar_signal) (wake_first-AllSound (to_ℕ id) q)
  ]

  pub sys_cvar_broadcast-AllSound : (id : ℤ) → AllSound (sys_cvar_broadcast id k).1.objects
  unfolding sys_cvar_broadcast
  sys_cvar_broadcast-AllSound id = elim (Option-cases (get_cvar id k)) [
    | inl e ↦ rw (e, sys_cvar_broadcast) all
    | inr (q, e) ↦
        rw (e, sys_cvar_broadcast)
          (rw (wake_all-objects q _) (update-AllSound k.objects (to_ℕ id) (cvar []) all tt))
  ]

  pub sys_reclaim-AllSound : (id : ℤ) → AllSound (sys_reclaim id k).1.objects
  unfolding sys_reclaim
  sys_reclaim-AllSound id =
      elim (Bool-cases (out_of_range id || not (is_unused (k.objects (to_ℕ id))))) [
        | inl refused ↦ rw refused all
        | inr done ↦ rw done (update-AllSound k.objects (to_ℕ id) free all tt)
      ]

release_if_owned-AllSound :
    (proc id : ℕ) (k : Kernel)
    → AllSound k.objects
    → AllSound (release_if_owned proc id (as_lock (k.objects id)) k).objects
release_if_owned-AllSound proc id k all = go (as_lock (k.objects id)) refl
  where
    go :
        (o : Option LockState)
        → as_lock (k.objects id) ≡ o
        → AllSound (release_if_owned proc id o k).objects
    go none e = all
    go (some l) e = elim (Bool-cases (l.owner == proc)) [
      | inl mine ↦
          let sound : IsSound (lock l) = rw (as_lock-some (k.objects id) l e) at (all id) in
          rw mine (lock_release-AllSound k all id l sound.0)
      | inr other ↦ rw other all
    ]

pub release_owned-AllSound :
    (left id proc : ℕ) (k : Kernel)
    → AllSound k.objects
    → AllSound (release_owned left id proc k).objects
unfolding release_owned
release_owned-AllSound zero id proc k all = all
release_owned-AllSound (suc left) id proc k all =
    release_owned-AllSound left (id + 1) proc _ (release_if_owned-AllSound proc id k all)

module _ ⦃hw : Hardware⦄ (room : (0 < hw.pipe_buffer_len) × (hw.pipe_buffer_len < 2 ^ 31))
    (k : Kernel) (all : AllSound k.objects) where
  pub sys_pipe_init-AllSound : (ok : Bool) (idp : ℕ) → AllSound (sys_pipe_init ok idp k).1.objects
  unfolding sys_pipe_init
  sys_pipe_init-AllSound ok idp = elim (Bool-cases (idp == 0)) [
    | inl null ↦ rw null all
    | inr given ↦ rw given (elim (Option-cases (alloc_object k)) [
      | inl e ↦ rw (e, sys_pipe_init) all
      | inr (id, e) ↦
          rw (e, sys_pipe_init)
            (elim (Bool-cases ok) [
              | inl got ↦
                  rw got (update-AllSound k.objects id (pipe new_pipe) all (fresh, inl refl))
              | inr failed ↦ rw failed all
            ])
    ])
  ]
    where
      fresh : IsPipe new_pipe
      fresh = record { some_room = room.0; int_cap = room.1; within = omega arith }

-- A write that keeps the pipe's length within 2^30.
abbrev pub Fits : Kernel → ℤ → ℤ → Type 0
Fits k id n = (p : PipeState) → get_pipe id k ≡ some p → p.len + to_ℕ n ≤ 2 ^ 30

module _ ⦃hw : Hardware⦄ (k : Kernel) (all : AllSound k.objects) where
  deliver-AllSound :
      (id buf n : ℕ) (p : PipeState)
      → IsPipe p
      → (p.readers ≡ []) ⊎ (p.len ≡ 0)
      → AllSound (deliver id buf n p k).1.objects
  unfolding deliver
  deliver-AllSound id buf n p v h = update-AllSound k.objects id _ all (
    record { some_room = v.some_room; int_cap = v.int_cap; within = omega (arith, v.within) },
    elim h [ inl none_wait ↦ inl none_wait | inr empty ↦ inr (omega arith) ],
  )

  pub pipe_read_loop-AllSound : (id buf n : ℕ) → AllSound (pipe_read_loop id buf n k).1.objects
  unfolding pipe_read_loop
  pipe_read_loop-AllSound id buf n = elim (Option-cases (get_pipe (pos id) k)) [
    | inl e ↦ rw (e, pipe_read_loop) all
    | inr (p, e) ↦
        let (v, h) = get_pipe-IsSound (pos id) k p all e in
        rw (e, pipe_read_loop)
          (elim (Bool-cases (p.len == 0)) [
            | inl empty ↦ rw empty (
                rw (block_on-objects _ _ _) (
                  update-AllSound k.objects id _ all (
                    record { some_room = v.some_room; int_cap = v.int_cap; within = v.within },
                    inr (ground arith),
                  )))
            | inr held ↦ rw held (deliver-AllSound id buf n p v h)
          ])
  ]

  pub sys_pipe_read-AllSound :
      (id : ℤ) (buf : ℕ) (n : ℤ) → AllSound (sys_pipe_read id buf n k).1.objects
  unfolding sys_pipe_read
  sys_pipe_read-AllSound id buf n = elim (Bool-cases (bad_buffer buf n)) [
    | inl bad ↦ rw bad all
    | inr good ↦ rw good (elim (Bool-cases (to_ℕ n == 0)) [
      | inl nothing ↦ rw nothing all
      | inr some_bytes ↦ rw some_bytes (elim (Bool-cases (no_process k || is_neg id)) [
        | inl refused ↦ rw refused all
        | inr goes ↦ rw goes (pipe_read_loop-AllSound (to_ℕ id) buf (to_ℕ n))
      ])
    ])
  ]

  fill-AllSound :
      (id buf n : ℕ) (p : PipeState) (ok : Bool) (e : Ensured)
      → IsPipe p
      → p.len + n ≤ 2 ^ 30
      → Roomy ok p (p.len + n) e
      → AllSound (fill id buf n k e).1.objects
  fill-AllSound id buf n p ok no_memory v small r = all
  fill-AllSound id buf n p ok no_end v small r = all
  fill-AllSound id buf n p ok (roomy q) v small (room, more, int_cap, len, readers, same) =
      rw (wake_all-objects q.readers _) (
        update-AllSound k.objects id _ all (
          record {
            some_room = omega (arith, v.some_room);
            int_cap = int_cap;
            within = omega arith;
          },
          inl refl,
        ))

  pub sys_pipe_write-AllSound :
      (ok : Bool) (id : ℤ) (buf : ℕ) (n : ℤ)
      → Fits k id n
      → AllSound (sys_pipe_write ok id buf n k).1.objects
  unfolding sys_pipe_write
  sys_pipe_write-AllSound ok id buf n fits = elim (Bool-cases (bad_buffer buf n)) [
    | inl bad ↦ rw bad all
    | inr good ↦ rw good (elim (Bool-cases (to_ℕ n == 0)) [
      | inl nothing ↦ rw nothing all
      | inr some_bytes ↦ rw some_bytes (elim (Option-cases (get_pipe id k)) [
        | inl e ↦ rw (e, sys_pipe_write) all
        | inr (p, e) ↦
            let (v, h) = get_pipe-IsSound id k p all e in
            let small = fits p e in
            let whole : (p.len + to_ℕ n) % 2 ^ 32 ≡ p.len + to_ℕ n = omega arith in
            rw (e, sys_pipe_write)
              (rw whole (
                fill-AllSound (to_ℕ id) buf (to_ℕ n) p ok
                  (pipe_ensure_capacity ok p (p.len + to_ℕ n)) v small
                  (pipe_ensure_capacity-Roomy ok p (p.len + to_ℕ n) v.some_room v.int_cap small)))
      ])
    ])
  ]

  pub sys_cvar_wait-AllSound : k.current ≢ 0 → (c l : ℤ) → AllSound (sys_cvar_wait c l k).1.objects
  unfolding sys_cvar_wait
  sys_cvar_wait-AllSound user c l = elim (Option-cases (get_cvar c k)) [
    | inl e ↦ rw (e, sys_cvar_wait) all
    | inr (q, e) ↦
        rw (e, sys_cvar_wait)
          (elim (Option-cases (get_lock l k)) [
            | inl f ↦ rw (f, sys_cvar_wait) all
            | inr (m, f) ↦
                rw (f, sys_cvar_wait)
                  (elim (Bool-cases (m.owner == k.current)) [
                    | inl mine ↦ rw mine (
                        rw (block_on-objects _ _ _) (
                          update-AllSound _ (to_ℕ c) _
                            (lock_release-AllSound k all (to_ℕ l) m
                              (get_lock-IsSound l k m all f).0)
                            tt))
                    | inr other ↦ rw other all
                  ])
          ])
  ]

  pub cvar_wait_resume-AllSound :
      k.current ≢ 0 → (c l : ℕ) → AllSound (cvar_wait_resume c l k).1.objects
  unfolding cvar_wait_resume
  cvar_wait_resume-AllSound user c l = elim (Option-cases (get_cvar (pos c) k)) [
    | inl e ↦ rw (e, cvar_wait_resume) all
    | inr (q, e) ↦ rw (e, cvar_wait_resume) (lock_acquire-AllSound k all user (pos l))
  ]
