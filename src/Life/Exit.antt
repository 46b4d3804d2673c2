-- ===== src/Life/Exit.antt =====
-- What a process leaves behind when it exits.
use yalnix.Base.{
  ℕ, zero, suc, ◌+◌, ◌≡◌, refl, sym, ◌∙◌, ap, ◌≢◌, ◌⊎◌, inl, inr, false, Option, none, some, List,
  [], ◌∷◌, arith, ◌==◌, ltb, if◌then◌else◌, Bool-cases, ==_refl, ℤ,
}
use yalnix.Hardware.{Hardware}
use yalnix.State.{Kernel, ProcState, in_exit, LockState, modify, is_zombie}
use yalnix.Process.{process_make_ready, process_schedule}
use yalnix.Ipc.{wake, as_lock}
use yalnix.Ipc.Objects.{process_make_ready-objects}
use yalnix.Ipc.Lock.{release_to, lock_release, release_if_owned, release_owned, ipc_process_exit}
use yalnix.Process.Ready.{Awake, make_ready-Awake}
use yalnix.Ipc.Lock.Handoff.{let_go, exit-objects}
use yalnix.Life.{orphan_all, drop_children, notify_parent, process_exit_current}

-- What the steps of an exit leave of another process: it waits for a child as before, and lives.
record Spares (q : ℕ) (k k' : Kernel) : Type 0 where
  idle : k'.idle ≡ k.idle
  waits : (k'.procs q).waiting_for_child ≡ (k.procs q).waiting_for_child
  lives : is_zombie (k.procs q).state ≡ false → is_zombie (k'.procs q).state ≡ false

Spares-refl : (q : ℕ) (k : Kernel) → Spares q k k
Spares-refl q k = record { idle = refl; waits = refl; lives = λ a. a }

Spares-trans : {q : ℕ} {k k' k'' : Kernel} → Spares q k k' → Spares q k' k'' → Spares q k k''
Spares-trans a b = record {
  idle = b.idle ∙ a.idle;
  waits = b.waits ∙ a.waits;
  lives = λ x. b.lives (a.lives x);
}

orphan_all-Spares : (cs : List ℕ) (q : ℕ) (k : Kernel) → Spares q k (orphan_all cs k)
unfolding orphan_all
orphan_all-Spares [] q k = Spares-refl q k
orphan_all-Spares (c ∷ cs) q k =
    Spares-trans (record { idle = refl; waits = ground arith; lives = λ a. ground arith })
      (orphan_all-Spares cs q (modify c (λ b. record b { parent = 0 }) k))

orphan_all-objects : (cs : List ℕ) (k : Kernel) → (orphan_all cs k).objects ≡ k.objects
unfolding orphan_all
orphan_all-objects [] k = refl
orphan_all-objects (c ∷ cs) k = orphan_all-objects cs _

drop_children-Spares : (p q : ℕ) (k : Kernel) → Spares q k (drop_children p k)
drop_children-Spares p q k =
    Spares-trans (record { idle = refl; waits = ground arith; lives = λ a. ground arith })
      (orphan_all-Spares (k.procs p).children q (modify p (λ b. record b { children = [] }) k))

wake-Spares : (p q : ℕ) (k : Kernel) → Spares q k (wake p k)
unfolding wake process_make_ready
wake-Spares p q k = record { idle = ground arith; waits = ground arith; lives = λ a. ground arith }

release_to-Spares : (id : ℕ) (w : List ℕ) (q : ℕ) (k : Kernel) → Spares q k (release_to id w k)
release_to-Spares id [] q k = record { idle = refl; waits = refl; lives = λ a. a }
release_to-Spares id (p ∷ w) q k =
    Spares-trans (record { idle = refl; waits = refl; lives = λ a. a }) (wake-Spares p q _)

release_if_owned-Spares :
    (p id : ℕ) (o : Option LockState) (q : ℕ) (k : Kernel) → Spares q k (release_if_owned p id o k)
unfolding lock_release
release_if_owned-Spares p id none q k = Spares-refl q k
release_if_owned-Spares p id (some l) q k = elim (Bool-cases (l.owner == p)) [
  | inl mine ↦ rw mine (release_to-Spares id l.waiters q k)
  | inr other ↦ rw other (Spares-refl q k)
]

release_owned-Spares : (left id p q : ℕ) (k : Kernel) → Spares q k (release_owned left id p k)
unfolding release_owned
release_owned-Spares zero id p q k = Spares-refl q k
release_owned-Spares (suc left) id p q k =
    Spares-trans (release_if_owned-Spares p id (as_lock (k.objects id)) q k)
      (release_owned-Spares left (id + 1) p q _)

ipc_process_exit-Spares : (p q : ℕ) (k : Kernel) → Spares q k (ipc_process_exit p k)
unfolding ipc_process_exit
ipc_process_exit-Spares p q k = release_owned-Spares 128 0 p q k

-- The state `m` in which the process `p` has ended with `status`: it is a zombie that keeps the
-- status, it owns no lock any more, and a parent `q` that waits for a child does not wait any
-- longer, is ready and stands in the ready queue.
pub Ended : (p q : ℕ) → ℤ → Kernel → Kernel → Type 0
Ended p q status k m =
    ((m.procs p).state ≡ ProcState.zombie)
    × ((m.procs p).exit_status ≡ status)
    × ((j : ℕ) → m.objects j ≡ (if ltb j 128 then let_go p (k.objects j) else k.objects j))
    × ((q ≡ 0)
        ⊎ ((k.procs q).waiting_for_child ≡ false)
        ⊎ (((m.procs q).waiting_for_child ≡ false) × Awake q m))

module _ (p q : ℕ) (status : ℤ) (k : Kernel) where
  released : Kernel
  released = ipc_process_exit p (drop_children p k)

  dead : Kernel
  unfolding released
  dead = modify p (λ b. record b { exit_status = status; state = ProcState.zombie }) released

  released-objects :
      (j : ℕ) → released.objects j ≡ (if ltb j 128 then let_go p (k.objects j) else k.objects j)
  unfolding released
  released-objects j =
      exit-objects p (drop_children p k) j
      ∙ ap (λ f. if ltb j 128 then let_go p (f j) else f j)
          (orphan_all-objects (k.procs p).children _)

  released-Spares : Spares q k released
  unfolding released
  released-Spares =
      Spares-trans (drop_children-Spares p q k) (ipc_process_exit-Spares p q (drop_children p k))

  dead-ends : ((dead.procs p).state ≡ ProcState.zombie) × ((dead.procs p).exit_status ≡ status)
  unfolding dead
  dead-ends = rw (==_refl p) (refl, refl)

  dead-Spares : q ≢ p → Spares q k dead
  unfolding dead
  dead-Spares other =
      let apart : (p == q) ≡ false = ground (arith, other) in
      Spares-trans released-Spares
        (record { idle = refl; waits = rw apart refl; lives = λ a. rw apart a })

  dead-objects :
      (j : ℕ) → dead.objects j ≡ (if ltb j 128 then let_go p (k.objects j) else k.objects j)
  unfolding dead
  dead-objects j = released-objects j

  kept-Ended : (q ≡ 0) ⊎ ((k.procs q).waiting_for_child ≡ false) → Ended p q status k dead
  unfolding Ended
  kept-Ended why = (
    dead-ends.0,
    dead-ends.1,
    dead-objects,
    elim why [ inl none_left ↦ inl none_left | inr busy ↦ inr (inl busy) ],
  )

  other-same : q ≢ p → (m : Kernel) → (process_make_ready q m).procs p ≡ m.procs p
  unfolding process_make_ready
  other-same other m = let apart : (q == p) ≡ false = ground (arith, other) in ground arith

  make_ready-waits :
      (m : Kernel)
      → ((process_make_ready q m).procs q).waiting_for_child ≡ (m.procs q).waiting_for_child
  unfolding process_make_ready
  make_ready-waits m = ground arith

  woken-Ended :
      q ≢ p
      → q ≢ 0
      → q ≢ k.idle
      → is_zombie (k.procs q).state ≡ false
      → Ended p q status k
          (process_make_ready q (modify q (λ b. record b { waiting_for_child = false }) dead))
  unfolding Ended
  woken-Ended other nz user alive =
      let apart : (q == p) ≡ false = ground (arith, other) in
      let w = dead-Spares other in
      (
        rw (other-same other _, apart) dead-ends.0,
        rw (other-same other _, apart) dead-ends.1,
        (λ j. rw (process_make_ready-objects q _) (dead-objects j)),
        inr (
            inr (
              make_ready-waits _ ∙ rw (==_refl q) refl,
              make_ready-Awake q _ nz (rw w.idle user) (rw (==_refl q) (w.lives alive)),
            )),
      )

  notify-Ended :
      q ≢ p
      → (q ≡ 0) ⊎ ((q ≢ k.idle) × (is_zombie (k.procs q).state ≡ false))
      → Ended p q status k (notify_parent q dead)
  notify-Ended other parent = elim (Bool-cases (q == 0)) [
    | inl null ↦ rw null (kept-Ended (inl (ground arith)))
    | inr given ↦ rw given (elim (Bool-cases (dead.procs q).waiting_for_child) [
      | inl waits ↦ rw waits (elim parent [
        | inl null ↦ absurd (ground arith)
        | inr live ↦ woken-Ended other (ground arith) live.0 live.1
      ])
      | inr busy ↦ rw busy (kept-Ended (inr (sym (dead-Spares other).waits ∙ busy)))
    ])
  ]

module _ ⦃hw : Hardware⦄ (status : ℤ) (k : Kernel) where
  -- A state from which the scheduler chooses the next process once `p` has ended.
  pub Exited : (p q : ℕ) → Kernel → Type 0
  Exited p q k' = (m : Kernel) × (k' ≡ process_schedule in_exit m) × Ended p q status k m

  -- A user process other than init, whose parent `q`, if it has one, is another user process that is
  -- no zombie: ProcessExitCurrent releases its locks, each to the longest waiter, makes it a zombie
  -- that keeps its status, makes a parent that waits for a child ready, and calls the scheduler then.
  pub process_exit_current-Exited :
      let p = k.current in
      let q = (k.procs p).parent in
      p ≢ 0
      → p ≢ k.idle
      → p ≢ k.init
      → q ≢ p
      → (q ≡ 0) ⊎ ((q ≢ k.idle) × (is_zombie (k.procs q).state ≡ false))
      → Exited p q (process_exit_current status k)
  unfolding process_exit_current Exited dead released
  process_exit_current-Exited nz user not_init other parent =
      let a : (k.current == 0) ≡ false = ground arith in
      let b : (k.current == k.idle) ≡ false = ground arith in
      let c : (k.current == k.init) ≡ false = ground arith in
      let q = (k.procs k.current).parent in
      rw (a, b, c)
        (
          notify_parent q (dead k.current q status k),
          refl,
          notify-Ended k.current q status k other parent,
        )
