-- ===== src/Process/Schedule.antt =====
-- The scheduler: the ready queue's invariant, and which process runs next.
use yalnix.Base.{
  ℕ, zero, suc, ◌+◌, ◌≡◌, refl, ◌∙◌, ◌≢◌, inl, inr, false, not, ◌&&◌, ◌||◌, List, [], ◌∷◌, arith,
  ◌==◌, if◌then◌else◌, update, All, All-append, All-mono, NotIn, Distinct, Bool-cases,
}
use yalnix.Hardware.{Hardware}
use yalnix.State.{Kernel, Pcb, ProcState, Resume, modify, set_state, is_zombie, is_running}
use yalnix.Queue.Fifo.{has, pop_front}
use yalnix.Queue.Refine.{NotIn-append, Distinct-snoc}
use yalnix.Process.{
  process_make_ready, process_next_ready, or_null, is_due, wake_at, wake_from, process_wake_delayed,
  kc_switch, process_switch, requeue_current, process_schedule,
}

abbrev pub AllReady : (ℕ → Pcb) → List ℕ → Type 0
AllReady procs q = All (λ p. (procs p).state ≡ ProcState.ready) q

-- The ready queue links each process once, only processes in state READY, and never the idle process.
pub record IsReady (k : Kernel) : Type 0 where
  pub distinct : Distinct k.ready_queue
  pub nonzero : NotIn 0 k.ready_queue
  pub no_idle : NotIn k.idle k.ready_queue
  pub states : AllReady k.procs k.ready_queue

pub NotIn-has : (p : ℕ) (q : List ℕ) → has p q ≡ false → NotIn p q
NotIn-has p [] h = tt
NotIn-has p (x ∷ q) h = (ground arith, NotIn-has p q (ground arith))

-- Processes keep the state READY under a change that keeps it of each.
AllReady-mono :
    (f g : ℕ → Pcb) (q : List ℕ)
    → ((p : ℕ) → (f p).state ≡ ProcState.ready → (g p).state ≡ ProcState.ready)
    → AllReady f q
    → AllReady g q
AllReady-mono f g q h = All-mono _ _ q h

-- A change of one process that leaves its state alone.
pub modify-IsReady :
    {k : Kernel} (p : ℕ) (f : Pcb → Pcb)
    → (f (k.procs p)).state ≡ (k.procs p).state
    → IsReady k
    → IsReady (modify p f k)
modify-IsReady {k} p f same v = record {
  distinct = v.distinct;
  nonzero = v.nonzero;
  no_idle = v.no_idle;
  states = AllReady-mono k.procs (modify p f k).procs k.ready_queue (λ x h. ground arith) v.states;
}

made_ready :
    (k : Kernel) (p : ℕ)
    → AllReady k.procs k.ready_queue
    → AllReady (modify p (set_state ProcState.ready) k).procs k.ready_queue
made_ready k p =
    AllReady-mono k.procs (modify p (set_state ProcState.ready) k).procs k.ready_queue
      (λ x h. ground arith)

-- ProcessMakeReady keeps the ready queue well formed.
pub process_make_ready-IsReady : (p : ℕ) {k : Kernel} → IsReady k → IsReady (process_make_ready p k)
unfolding process_make_ready
process_make_ready-IsReady p {k} v =
    elim (Bool-cases (p == 0 || p == k.idle || is_zombie (k.procs p).state)) [
      | inl skip ↦ rw skip v
      | inr go ↦ rw go (elim (Bool-cases (has p k.ready_queue)) [
        | inl linked ↦ rw linked (record {
          distinct = v.distinct;
          nonzero = v.nonzero;
          no_idle = v.no_idle;
          states = made_ready k p v.states;
        })
        | inr new ↦ rw new (record {
          distinct = Distinct-snoc k.ready_queue p v.distinct (NotIn-has p k.ready_queue new);
          nonzero = NotIn-append 0 k.ready_queue (p ∷ []) v.nonzero (ground arith, tt);
          no_idle = NotIn-append k.idle k.ready_queue (p ∷ []) v.no_idle (ground arith, tt);
          states =
              All-append
                (λ x. ((modify p (set_state ProcState.ready) k).procs x).state ≡ ProcState.ready)
                k.ready_queue (p ∷ []) (made_ready k p v.states) (ground arith, tt);
        })
      ])
    ]

pub wake_at-IsReady : (i : ℕ) {k : Kernel} → IsReady k → IsReady (wake_at i k)
unfolding wake_at
wake_at-IsReady i {k} v = elim (Bool-cases (is_due (k.process_table i) k)) [
  | inl due ↦ rw due (
      process_make_ready-IsReady (k.process_table i)
        (modify-IsReady (k.process_table i) (λ b. record b { delay_until = 0 }) refl v))
  | inr not_due ↦ rw not_due v
]

pub wake_from-IsReady : (left i : ℕ) {k : Kernel} → IsReady k → IsReady (wake_from left i k)
unfolding wake_from
wake_from-IsReady zero i v = v
wake_from-IsReady (suc left) i v = wake_from-IsReady left (i + 1) (wake_at-IsReady i v)

pub requeue_current-IsReady : {k : Kernel} → IsReady k → IsReady (requeue_current k)
unfolding requeue_current
requeue_current-IsReady {k} v =
    elim (Bool-cases (
      not (k.current == 0)
      && (not (k.current == k.idle) && is_running (k.procs k.current).state))) [
        | inl runs ↦ rw runs (process_make_ready-IsReady k.current v)
        | inr idles ↦ rw idles v
      ]

process_make_ready-idle : (p : ℕ) (k : Kernel) → (process_make_ready p k).idle ≡ k.idle
unfolding process_make_ready
process_make_ready-idle p k = ground arith

wake_at-idle : (i : ℕ) (k : Kernel) → (wake_at i k).idle ≡ k.idle
unfolding wake_at
wake_at-idle i k = elim (Bool-cases (is_due (k.process_table i) k)) [
  | inl due ↦ rw due (process_make_ready-idle (k.process_table i) _)
  | inr not_due ↦ rw not_due
]

wake_from-idle : (left i : ℕ) (k : Kernel) → (wake_from left i k).idle ≡ k.idle
unfolding wake_from
wake_from-idle zero i k = refl
wake_from-idle (suc left) i k = wake_from-idle left (i + 1) (wake_at i k) ∙ wake_at-idle i k

requeue_current-idle : (k : Kernel) → (requeue_current k).idle ≡ k.idle
unfolding requeue_current
requeue_current-idle k = ground (arith, process_make_ready-idle k.current k)

-- A change of a process that the queue does not link.
AllReady-spared :
    (f : ℕ → Pcb) (p : ℕ) (b : Pcb) (q : List ℕ)
    → NotIn p q
    → AllReady f q
    → AllReady (update f p b) q
AllReady-spared f p b [] n h = tt
AllReady-spared f p b (x ∷ q) n h = (ground arith, AllReady-spared f p b q n.1 h.1)

module _ ⦃hw : Hardware⦄ where
  kc_switch-IsReady :
      (old next : ℕ) (r : Resume) {k : Kernel} → IsReady k → IsReady (kc_switch old next r k)
  unfolding kc_switch
  kc_switch-IsReady old next r {k} v = elim (Bool-cases (old == 0)) [
    | inl none_old ↦ rw none_old (record {
      distinct = v.distinct;
      nonzero = v.nonzero;
      no_idle = v.no_idle;
      states = v.states;
    })
    | inr some_old ↦
        let w = modify-IsReady old (λ b. record b { kernel_context = r }) refl v in
        rw some_old (record {
          distinct = w.distinct;
          nonzero = w.nonzero;
          no_idle = w.no_idle;
          states = w.states;
        })
  ]

  -- The end of ProcessSchedule: switch to `next` unless it runs already.
  abbrev pub go_on : ℕ → Resume → Kernel → Kernel
  go_on next r k = if next == k.current then k else process_switch next r k

  go_on-IsReady :
      (next : ℕ) (r : Resume) {k : Kernel}
      → NotIn next k.ready_queue
      → IsReady k
      → IsReady (go_on next r k)
  unfolding process_switch
  go_on-IsReady next r {k} n v = elim (Bool-cases (next == k.current)) [
    | inl same ↦ rw same v
    | inr other ↦ rw other (elim (Bool-cases (next == 0)) [
      | inl null ↦ rw null v
      | inr some_next ↦ rw some_next (
          kc_switch-IsReady k.current next r (record {
            distinct = v.distinct;
            nonzero = v.nonzero;
            no_idle = v.no_idle;
            states =
                AllReady-spared k.procs next (set_state ProcState.running (k.procs next))
                  k.ready_queue n v.states;
          }))
    ])
  ]

  go_on-current :
      (next : ℕ) (r : Resume) (k : Kernel)
      → next ≢ 0
      → ((go_on next r k).current ≡ next) × ((go_on next r k).ready_queue ≡ k.ready_queue)
  unfolding process_switch kc_switch
  go_on-current next r k nz = ground arith

  -- The queue from which ProcessSchedule takes: with what is due woken, and the caller back in it.
  abbrev pub candidates : Kernel → Kernel
  candidates k = requeue_current (process_wake_delayed k)

  pub candidates-IsReady : {k : Kernel} → IsReady k → IsReady (candidates k)
  unfolding process_wake_delayed
  candidates-IsReady v = requeue_current-IsReady (wake_from-IsReady hw.max_procs 0 v)

  pub candidates-idle : (k : Kernel) → (candidates k).idle ≡ k.idle
  unfolding process_wake_delayed
  candidates-idle k =
      requeue_current-idle (process_wake_delayed k) ∙ wake_from-idle hw.max_procs 0 k

  -- Who runs next: the head of the queue, which leaves it, or the idle process.
  abbrev pub Next : Kernel → Kernel → List ℕ → Type 0
  Next w k [] = (k.current ≡ w.idle) × (k.ready_queue ≡ [])
  Next w k (p ∷ q) = (k.current ≡ p) × (k.ready_queue ≡ q)

  choose :
      (r : Resume) (w : Kernel) (q : List ℕ)
      → w.ready_queue ≡ q
      → w.idle ≢ 0
      → IsReady w
      → let k₁ = record w { ready_queue = (pop_front q).1 } in
        let next = if or_null (pop_front q).0 == 0 then w.idle else or_null (pop_front q).0 in
        Next w (go_on next r k₁) q × IsReady (go_on next r k₁)
  choose r w [] e nz v = (
    go_on-current w.idle r _ nz,
    go_on-IsReady w.idle r tt (record { distinct = tt; nonzero = tt; no_idle = tt; states = tt }),
  )
  choose r w (p ∷ q) e nz v =
      let d : Distinct (p ∷ q) = rw e at v.distinct in
      let z : NotIn 0 (p ∷ q) = rw e at v.nonzero in
      let i : NotIn w.idle (p ∷ q) = rw e at v.no_idle in
      let s : AllReady w.procs (p ∷ q) = rw e at v.states in
      let live : (p == 0) ≡ false = ground (arith, z.0) in
      rw live (
        go_on-current p r (record w { ready_queue = q }) z.0,
        go_on-IsReady p r d.0
            (record { distinct = d.1; nonzero = z.1; no_idle = i.1; states = s.1 }),
      )

  -- What the scheduler takes from, and how it leaves the queue; who is in it is said in Process/Waiting.antt.
  pub schedule-Next :
      (r : Resume) (k : Kernel)
      → k.idle ≢ 0
      → IsReady k
      → Next (candidates k) (process_schedule r k) (candidates k).ready_queue
        × IsReady (process_schedule r k)
  unfolding process_schedule process_next_ready
  schedule-Next r k nz v =
      choose r (candidates k) (candidates k).ready_queue refl (rw candidates-idle nz)
        (candidates-IsReady v)
