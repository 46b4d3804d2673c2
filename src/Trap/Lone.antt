-- ===== src/Trap/Lone.antt =====
-- What the clock does to a process that is alone on the machine.
use yalnix.Base.{
  ℕ, zero, suc, ◌+◌, ◌%◌, ◌^◌, ◌≤◌, ◌<◌, ◌≡◌, refl, ◌≢◌, ◌⊎◌, inl, inr, false, [], ◌∷◌, arith, ◌==◌,
  update, ==_refl,
}
use yalnix.Hardware.{Hardware}
use yalnix.State.{Kernel, ProcState, in_clock, set_state}
use yalnix.Process.{
  is_due, wake_at, wake_from, process_wake_delayed, requeue_current, process_make_ready,
  process_next_ready, process_schedule, process_switch, kc_switch,
}
use yalnix.Process.Schedule.{go_on}
use yalnix.Trap.{trap_clock}

module _ ⦃hw : Hardware⦄ where
  -- No process waits for a delay to run out.
  abbrev pub NoDelays : Kernel → Type 0
  NoDelays k =
      (i : ℕ)
      → i < hw.max_procs
      → (k.process_table i ≡ 0) ⊎ ((k.procs (k.process_table i)).delay_until ≡ 0)

  wake_from-none :
      (left i : ℕ) (k : Kernel) → i + left ≤ hw.max_procs → NoDelays k → wake_from left i k ≡ k
  unfolding wake_from wake_at
  wake_from-none zero i k fits none_due = refl
  wake_from-none (suc left) i k fits none_due =
      let not_due : is_due (k.process_table i) k ≡ false = elim (none_due i (omega arith)) [
        | inl empty ↦ rw empty refl
        | inr still ↦ ground (arith, still)
      ] in
      rw not_due (wake_from-none left (i + 1) k (omega arith) none_due)

  -- The process `p` runs alone: the ready queue is empty.
  pub record Alone (p : ℕ) (s : ProcState) (k : Kernel) : Type 0 where
    pub some_idle : k.idle ≢ 0
    pub some_p : p ≢ 0
    pub user : p ≢ k.idle
    pub runs : k.current ≡ p
    pub state : (k.procs p).state ≡ s
    pub queue : k.ready_queue ≡ []
    pub no_delays : NoDelays k

  -- The idle process runs while `p` is ready and in no queue.
  pub record Lost (p : ℕ) (k : Kernel) : Type 0 where
    pub some_idle : k.idle ≢ 0
    pub user : p ≢ k.idle
    pub idles : k.current ≡ k.idle
    pub state : (k.procs p).state ≡ ProcState.ready
    pub queue : k.ready_queue ≡ []
    pub no_delays : NoDelays k

  module _ (p : ℕ) (k : Kernel) where
    tick : Kernel
    tick = record k { clock_ticks = (k.clock_ticks + 1) % 2 ^ 32 }

    requeued : Kernel
    requeued = record tick {
      procs = update k.procs p (set_state ProcState.ready (k.procs p));
      ready_queue = p ∷ [];
    }

    tick-requeued : Alone p ProcState.running k → requeue_current tick ≡ requeued
    unfolding requeue_current process_make_ready tick requeued
    tick-requeued a =
        let z : (p == 0) ≡ false = ground (arith, a.some_p) in
        let i : (p == k.idle) ≡ false = ground (arith, a.user) in
        rw (a.runs, z, i, a.state, a.queue) refl

    first_tick-eq :
        Alone p ProcState.running k → trap_clock k ≡ record requeued { ready_queue = [] }
    unfolding trap_clock process_schedule process_wake_delayed process_next_ready tick requeued
    first_tick-eq a =
        let at : wake_from hw.max_procs 0 tick ≡ tick =
          wake_from-none hw.max_procs 0 tick (omega arith) a.no_delays in
        let z : (p == 0) ≡ false = ground (arith, a.some_p) in
        rw (at, tick-requeued a, z, a.runs, ==_refl p) refl

    -- The first tick makes the process ready and takes it from the queue again, and no more.
    first_tick : Alone p ProcState.running k → Alone p ProcState.ready (trap_clock k)
    unfolding requeued tick
    first_tick a = rw (first_tick-eq a) (record {
      some_idle = a.some_idle;
      some_p = a.some_p;
      user = a.user;
      runs = a.runs;
      state = ground (arith, ==_refl p);
      queue = refl;
      no_delays = λ i lt. ground (arith, a.no_delays i lt);
    })

    -- With nobody to run, the idle process is next.
    tick-none :
        NoDelays k
        → requeue_current tick ≡ tick
        → k.ready_queue ≡ []
        → trap_clock k ≡ go_on k.idle in_clock (record tick { ready_queue = [] })
    unfolding trap_clock process_schedule process_wake_delayed process_next_ready tick
    tick-none none_due kept empty =
        rw (wake_from-none hw.max_procs 0 tick (omega arith) none_due, kept, empty) refl

    stays : Alone p ProcState.ready k → requeue_current tick ≡ tick
    unfolding requeue_current tick
    stays a = rw (a.runs, a.state) (ground arith)

    idle_stays : Lost p k → requeue_current tick ≡ tick
    unfolding requeue_current tick
    idle_stays l = rw (l.idles, ==_refl k.idle) (ground arith)

    -- The second one leaves the processor to the idle process.
    second_tick : Alone p ProcState.ready k → Lost p (trap_clock k)
    unfolding tick process_switch kc_switch
    second_tick a =
        let z : (p == 0) ≡ false = ground (arith, a.some_p) in
        let y : (k.idle == p) ≡ false = ground (arith, a.user) in
        let x : (k.idle == 0) ≡ false = ground (arith, a.some_idle) in
        rw (tick-none a.no_delays (stays a) a.queue, a.runs, y, x, z)
          (record {
            some_idle = a.some_idle;
            user = a.user;
            idles = refl;
            state = ground (arith, a.state);
            queue = refl;
            no_delays =
                λ i lt. elim (a.no_delays i lt) [ inl e ↦ inl e | inr e ↦ inr (ground (arith, e)) ];
          })

    -- From then on every tick leaves everything as it is.
    next_tick : Lost p k → Lost p (trap_clock k)
    unfolding tick
    next_tick l =
        rw (tick-none l.no_delays (idle_stays l) l.queue, l.idles, ==_refl k.idle)
          (record {
            some_idle = l.some_idle;
            user = l.user;
            idles = refl;
            state = l.state;
            queue = refl;
            no_delays = l.no_delays;
          })

  pub ticks : ℕ → Kernel → Kernel
  ticks zero k = k
  ticks (suc n) k = ticks n (trap_clock k)

  ticks-Lost : (n p : ℕ) (k : Kernel) → Lost p k → Lost p (ticks n k)
  unfolding ticks
  ticks-Lost zero p k l = l
  ticks-Lost (suc n) p k l = ticks-Lost n p (trap_clock k) (next_tick p k l)

  -- A user process that runs while the ready queue is empty and no process waits for a delay is lost
  -- at the second clock tick: from then on, after any number of ticks, the idle process runs, and the
  -- process is in state READY but not in the ready queue.
  pub ticks-Lost_process :
      (n p : ℕ) (k : Kernel) → Alone p ProcState.running k → Lost p (ticks (suc (suc n)) k)
  unfolding ticks
  ticks-Lost_process n p k a = ticks-Lost n p _ (second_tick p (trap_clock k) (first_tick p k a))
