-- ===== src/Process/Waiting.antt =====
-- ProcessSchedule of src/process.c: who waits for the processor, and in which order.
use yalnix.Base.{
  ℕ, zero, suc, ◌+◌, ◌≡◌, refl, sym, ap, ◌∙◌, ◌≢◌, inl, inr, true, false, not, ◌&&◌, List, [], ◌∷◌,
  ◌++◌, arith, ◌==◌, if◌then◌else◌, Bool-cases, append_assoc, append-nil,
}
use yalnix.Hardware.{Hardware}
use yalnix.State.{Kernel, Resume, is_running, is_blocked}
use yalnix.Process.{wake_at, wake_from, process_wake_delayed, requeue_current, process_schedule}
use yalnix.Process.Schedule.{IsReady, candidates, candidates-idle, Next, schedule-Next}
use yalnix.Process.Expired.{expired_from, IsTable, make_ready-last, Seen, Step, step}

-- The process that calls, if it is to go on running, and is not the idle one.
abbrev pub caller : Kernel → List ℕ
caller k =
    if not (k.current == 0) && (not (k.current == k.idle) && is_running (k.procs k.current).state)
    then k.current ∷ []
    else []

module _ ⦃hw : Hardware⦄ (k : Kernel) (table : IsTable k)
    (idle_runs : is_blocked (k.procs k.idle).state ≡ false) where
  loop :
      (left i : ℕ) (m : Kernel)
      → i + left ≡ hw.max_procs
      → Seen k table idle_runs i m
      → IsReady m
      → Step k table idle_runs hw.max_procs (expired_from left i k) m (wake_from left i m)
  unfolding wake_from expired_from
  loop zero i m e s v =
      let same : i ≡ hw.max_procs = omega arith in (rw same at s, sym (append-nil m.ready_queue), v)
  loop (suc left) i m e s v =
      let (s₁, e₁, v₁) = step k table idle_runs i m (omega arith) s v in
      let (s₂, e₂, v₂) = loop left (i + 1) (wake_at i m) (omega arith) s₁ v₁ in
      (
        s₂,
        e₂
            ∙ ap (λ q. q ++ expired_from left (i + 1) k) e₁
            ∙ append_assoc m.ready_queue _ (expired_from left (i + 1) k),
        v₂,
      )

  -- The processes that wait for the processor, the longest waiting first: the ready queue, then those whose
  -- delay has run out, as the process table has them, then the caller.
  abbrev pub waiting : List ℕ
  waiting = k.ready_queue ++ (expired_from hw.max_procs 0 k ++ caller k)

  candidates-waiting : IsReady k → (candidates k).ready_queue ≡ waiting
  unfolding process_wake_delayed requeue_current
  candidates-waiting v =
      let w = wake_from hw.max_procs 0 k in
      let (s, e, v₁) = loop hw.max_procs 0 k (omega arith) start v in
      let runs : is_running (w.procs w.current).state ≡ is_running (k.procs k.current).state =
        rw s.current (s.runs k.current) in
      let rest = expired_from hw.max_procs 0 k in
      elim (Bool-cases (
        not (k.current == 0)
        && (not (k.current == k.idle) && is_running (k.procs k.current).state))) [
          | inl t ↦
              let test : not (w.current == 0)
                    && (not (w.current == w.idle) && is_running (w.procs w.current).state)
                  ≡ true =
                rw runs (rw (s.current, s.idle) t) in
              let live : is_running (w.procs w.current).state ≡ true = ground (arith, test) in
              rw (test, t)
                (make_ready-last w.current w (ground (arith, test)) (ground (arith, test))
                    (inr live) v₁.states
                  ∙ ap (λ p. w.ready_queue ++ p ∷ []) s.current
                  ∙ ap (λ q. q ++ k.current ∷ []) e
                  ∙ append_assoc k.ready_queue rest (k.current ∷ []))
          | inr f ↦
              let test : not (w.current == 0)
                    && (not (w.current == w.idle) && is_running (w.procs w.current).state)
                  ≡ false =
                rw runs (rw (s.current, s.idle) f) in
              rw (test, f) (e ∙ ap (λ q. k.ready_queue ++ q) (sym (append-nil rest)))
        ]
    where
      start : Seen k table idle_runs 0 k
      start = record {
        same_table = refl;
        clock = refl;
        idle = refl;
        current = refl;
        kept = λ p c. refl;
        runs = λ p. refl;
      }

  -- A process table that names no process twice, a well-formed ready queue, and an idle process that there is
  -- and that is not blocked. ProcessSchedule runs
  -- the longest waiting of the processes that are in the ready queue, or whose delay has run out, or that
  -- called it and run, in that order, or the idle process if there is none; it takes that process out of the
  -- queue, which holds the others then, in order, and keeps the queue well formed.
  pub process_schedule-Next :
      (r : Resume)
      → k.idle ≢ 0
      → IsReady k
      → Next k (process_schedule r k) waiting × IsReady (process_schedule r k)
  process_schedule-Next r nz v =
      let n = schedule-Next r k nz v in
      (ends (process_schedule r k) waiting (rw (candidates-waiting v) at n.0), n.1)
    where
      ends : (m : Kernel) (q : List ℕ) → Next (candidates k) m q → Next k m q
      ends m [] (a, b) = (a ∙ candidates-idle k, b)
      ends m (p ∷ q) h = h
