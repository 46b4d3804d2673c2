-- ===== src/Process/Delay.antt =====
-- Delays: ProcessWakeDelayed wakes a process once its time has come, and not before.
use yalnix.Base.{
  ℕ, zero, suc, ◌+◌, ◌≤◌, ◌<◌, ◌≡◌, refl, ◌≢◌, ◌⊎◌, inl, inr, true, false, List, [], ◌∷◌, ◌++◌,
  arith, ◌==◌, Bool-cases, ==_refl,
}
use yalnix.Hardware.{Hardware}
use yalnix.State.{Kernel, ProcState, modify}
use yalnix.Queue.Fifo.{has}
use yalnix.Process.Ready.{Awake, make_ready-Awake, keeps-Awake}
use yalnix.Process.{process_make_ready, is_due, wake_at, wake_from, process_wake_delayed}

-- The process `p` is blocked until tick `d`, which has not come.
pub record Sleeps (p d : ℕ) (k : Kernel) : Type 0 where
  pub state : (k.procs p).state ≡ ProcState.blocked
  pub until : (k.procs p).delay_until ≡ d
  pub early : k.clock_ticks < d
  pub absent : has p k.ready_queue ≡ false

has-snoc : (p x : ℕ) (q : List ℕ) → x ≢ p → has p q ≡ false → has p (q ++ x ∷ []) ≡ false
has-snoc p x [] ne h = ground arith
has-snoc p x (y ∷ q) ne h = let rest = has-snoc p x q ne (ground arith) in ground (arith, rest)

make_ready-Sleeps :
    (p d x : ℕ) (k : Kernel) → x ≢ p → Sleeps p d k → Sleeps p d (process_make_ready x k)
unfolding process_make_ready
make_ready-Sleeps p d x k ne s = record {
  state = ground (arith, s.state);
  until = ground (arith, s.until);
  early = ground (arith, s.early);
  absent = ground (arith, s.absent, has-snoc p x k.ready_queue ne s.absent);
}

wake_at-Sleeps : (p d i : ℕ) (k : Kernel) → Sleeps p d k → Sleeps p d (wake_at i k)
unfolding wake_at
wake_at-Sleeps p d i k s = elim (Bool-cases (is_due (k.process_table i) k)) [
  | inr not_due ↦ rw not_due s
  | inl due ↦
      let x = k.process_table i in
      let other : x ≢ p = λ e. ground (arith, due, s.until, s.early, e) in
      rw due (
        make_ready-Sleeps p d x _ other (record {
          state = ground (arith, s.state);
          until = ground (arith, s.until);
          early = s.early;
          absent = s.absent;
        }))
]

wake_from-Sleeps : (left p d i : ℕ) (k : Kernel) → Sleeps p d k → Sleeps p d (wake_from left i k)
unfolding wake_from
wake_from-Sleeps zero p d i k s = s
wake_from-Sleeps (suc left) p d i k s =
    wake_from-Sleeps left p d (i + 1) _ (wake_at-Sleeps p d i k s)

-- The process is blocked until a tick that has come.
pub record IsLate (p : ℕ) (k : Kernel) : Type 0 where
  pub some_p : p ≢ 0
  pub user : p ≢ k.idle
  pub state : (k.procs p).state ≡ ProcState.blocked
  pub delayed : (k.procs p).delay_until ≢ 0
  pub late : (k.procs p).delay_until ≤ k.clock_ticks

LateOrUp : ℕ → Kernel → Type 0
LateOrUp p k = IsLate p k ⊎ Awake p k

make_ready-IsLate : (p x : ℕ) (k : Kernel) → x ≢ p → IsLate p k → IsLate p (process_make_ready x k)
unfolding process_make_ready
make_ready-IsLate p x k ne s = record {
  some_p = s.some_p;
  user = ground (arith, s.user);
  state = ground (arith, s.state);
  delayed = ground (arith, s.delayed);
  late = ground (arith, s.late);
}

abbrev undelayed : ℕ → Kernel → Kernel
undelayed x k = modify x (λ b. record b { delay_until = 0 }) k

-- A turn of the loop wakes the process of its slot, and leaves another as it is or ready.
wake_at-LateOrUp : (p i : ℕ) (k : Kernel) → LateOrUp p k → LateOrUp p (wake_at i k)
unfolding wake_at LateOrUp
wake_at-LateOrUp p i k s = elim (Bool-cases (is_due (k.process_table i) k)) [
  | inr not_due ↦ rw not_due s
  | inl due ↦ rw due (elim s [
    | inr up ↦ inr (keeps-Awake p (k.process_table i) _ (ground (arith, up.0), up.1))
    | inl late ↦ elim (Bool-cases (k.process_table i == p)) [
      | inl same ↦
          let e : k.process_table i ≡ p = ground arith in
          rw e (
            inr (
              make_ready-Awake p (undelayed p k) late.some_p late.user
                (rw (==_refl p, late.state) refl)))
      | inr other ↦
          let ne : k.process_table i ≢ p = ground arith in
          inl (
            make_ready-IsLate p (k.process_table i) (undelayed (k.process_table i) k) ne (record {
              some_p = late.some_p;
              user = late.user;
              state = rw other late.state;
              delayed = rw other late.delayed;
              late = rw other late.late;
            }))
    ]
  ])
]

wake_at-table : (i : ℕ) (k : Kernel) → (wake_at i k).process_table ≡ k.process_table
unfolding wake_at process_make_ready
wake_at-table i k = ground arith

wake_at-Awake : (p i : ℕ) (k : Kernel) → Awake p k → Awake p (wake_at i k)
unfolding wake_at
wake_at-Awake p i k up = elim (Bool-cases (is_due (k.process_table i) k)) [
  | inr not_due ↦ rw not_due up
  | inl due ↦ rw due (keeps-Awake p (k.process_table i) _ (ground (arith, up.0), up.1))
]

wake_from-Awake : (left p i : ℕ) (k : Kernel) → Awake p k → Awake p (wake_from left i k)
unfolding wake_from
wake_from-Awake zero p i k up = up
wake_from-Awake (suc left) p i k up = wake_from-Awake left p (i + 1) _ (wake_at-Awake p i k up)

-- The turn of the process's own slot.
slot-Awake : (p i : ℕ) (k : Kernel) → k.process_table i ≡ p → LateOrUp p k → Awake p (wake_at i k)
unfolding LateOrUp wake_at
slot-Awake p i k e (inr up) = wake_at-Awake p i k up
slot-Awake p i k e (inl late) =
    let due : is_due p k ≡ true =
      ground (arith, late.some_p, late.state, late.delayed, late.late) in
    rw (wake_at, e, due)
      (make_ready-Awake p (undelayed p k) late.some_p late.user (rw (==_refl p, late.state) refl))

reach :
    (left i slot p : ℕ) (k : Kernel)
    → i ≤ slot
    → slot < i + left
    → k.process_table slot ≡ p
    → LateOrUp p k
    → Awake p (wake_from left i k)
unfolding wake_from
reach zero i slot p k lo hi at s = absurd (omega arith)
reach (suc left) i slot p k lo hi at s = elim (split i lo) [
  | inl here ↦
      wake_from-Awake left p (i + 1) (wake_at i k)
        (slot-Awake p i k (let e : i ≡ slot = here in rw e at) s)
  | inr later ↦
      reach left (i + 1) slot p (wake_at i k) later (omega arith) (rw (wake_at-table i k) at)
        (wake_at-LateOrUp p i k s)
]
  where
    split : (i : ℕ) → i ≤ slot → (i ≡ slot) ⊎ (i + 1 ≤ slot)
    split i le = omega arith

module _ ⦃hw : Hardware⦄ where
  -- ProcessWakeDelayed leaves a process whose tick has not come blocked, with its delay and out of the
  -- ready queue.
  pub process_wake_delayed-Sleeps :
      (p d : ℕ) (k : Kernel) → Sleeps p d k → Sleeps p d (process_wake_delayed k)
  unfolding process_wake_delayed
  process_wake_delayed-Sleeps p d k s = wake_from-Sleeps hw.max_procs p d 0 k s

  -- A blocked process in a slot of the process table whose tick has come is ready and in the ready
  -- queue once ProcessWakeDelayed has run.
  pub process_wake_delayed-Awake :
      (p slot : ℕ) (k : Kernel)
      → slot < hw.max_procs
      → k.process_table slot ≡ p
      → IsLate p k
      → Awake p (process_wake_delayed k)
  unfolding process_wake_delayed LateOrUp
  process_wake_delayed-Awake p slot k lt at late =
      reach hw.max_procs 0 slot p k (omega arith) (omega arith) at (inl late)
