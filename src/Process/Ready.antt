-- ===== src/Process/Ready.antt =====
-- What ProcessMakeReady does for the process that it is called with, and for the others.
use yalnix.Base.{
  ℕ, ◌≡◌, refl, ◌≢◌, inl, inr, true, false, List, [], ◌∷◌, ◌++◌, arith, ◌==◌, Bool-cases, ==_refl,
}
use yalnix.State.{modify-at, modify-off, Kernel, ProcState, set_state, is_zombie}
use yalnix.Queue.Fifo.{has}
use yalnix.Process.{process_make_ready}

has-last : (p : ℕ) (q : List ℕ) → has p (q ++ p ∷ []) ≡ true
has-last p [] = ground (arith, ==_refl p)
has-last p (x ∷ q) = ground (arith, has-last p q)

-- A process that can run is ready and in the ready queue once it is woken.
abbrev pub Awake : ℕ → Kernel → Type 0
Awake p k = ((k.procs p).state ≡ ProcState.ready) × (has p k.ready_queue ≡ true)

pub make_ready-Awake :
    (p : ℕ) (k : Kernel)
    → p ≢ 0
    → p ≢ k.idle
    → is_zombie (k.procs p).state ≡ false
    → Awake p (process_make_ready p k)
unfolding process_make_ready
make_ready-Awake p k nz user alive =
    let a : (p == 0) ≡ false = ground arith in
    let b : (p == k.idle) ≡ false = ground arith in
    rw (a, b, alive)
      (elim (Bool-cases (has p k.ready_queue)) [
        | inl linked ↦ rw linked (rw (==_refl p) refl, linked)
        | inr new ↦ rw new (rw (==_refl p) refl, has-last p k.ready_queue)
      ])

has-keep : (p x : ℕ) (q : List ℕ) → has p q ≡ true → has p (q ++ x ∷ []) ≡ true
has-keep p x [] h = cc
has-keep p x (y ∷ q) h = elim (Bool-cases (y == p)) [
  | inl here ↦ rw here refl
  | inr there ↦ rw there (has-keep p x q (rw there at h))
]

-- A process that is ready stays so when another one is made ready.
pub keeps-Awake : (p x : ℕ) (k : Kernel) → Awake p k → Awake p (process_make_ready x k)
unfolding process_make_ready
keeps-Awake p x k a = (ground (arith, a.0), ground (arith, a.1, has-keep p x k.ready_queue a.1))

-- What ProcessMakeReady changes of the state.
pub record Made (p : ℕ) (k k' : Kernel) : Type 0 where
  pub self : k'.procs p ≡ record (k.procs p) { state = ProcState.ready }
  pub other : (q : ℕ) → q ≢ p → k'.procs q ≡ k.procs q
  pub memory : k'.memory ≡ k.memory
  pub table : k'.process_table ≡ k.process_table
  pub current : k'.current ≡ k.current

pub make_ready-Made :
    (p : ℕ) (k : Kernel)
    → p ≢ 0
    → p ≢ k.idle
    → is_zombie (k.procs p).state ≡ false
    → Made p k (process_make_ready p k)
unfolding process_make_ready
make_ready-Made p k nz user alive =
    let a : (p == 0) ≡ false = ground arith in
    let b : (p == k.idle) ≡ false = ground arith in
    rw (a, b, alive)
      (elim (Bool-cases (has p k.ready_queue)) [
        | inl linked ↦ rw linked (record {
          self = modify-at p (set_state ProcState.ready) k;
          other = λ q e. modify-off p (set_state ProcState.ready) k q e;
          memory = refl;
          table = refl;
          current = refl;
        })
        | inr new ↦ rw new (record {
          self = modify-at p (set_state ProcState.ready) k;
          other = λ q e. modify-off p (set_state ProcState.ready) k q e;
          memory = refl;
          table = refl;
          current = refl;
        })
      ])
