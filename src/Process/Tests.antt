-- ===== src/Process/Tests.antt =====
-- The scheduler on the sample kernel.
use yalnix.Base.{if◌then◌else◌, ◌==◌, ℕ, ◌≡◌, refl, [], ◌∷◌, arith}
use yalnix.Hardware.Sample.{sample}
use yalnix.State.{Kernel, ProcState, in_clock}
use yalnix.State.Sample.{blank_pcb, three_processes}
use yalnix.Process.{
  process_schedule, process_wake_delayed, requeue_current, wake_from, wake_at, process_make_ready,
  process_next_ready, process_switch, kc_switch, map_kernel_stack,
}
use yalnix.Process.Ready.{Awake}
use yalnix.Process.Delay.{Sleeps, process_wake_delayed-Sleeps, process_wake_delayed-Awake}
use yalnix.Process.Schedule.{IsReady, Next}
use yalnix.Process.Expired.{IsTable, expired_from}
use yalnix.Process.Waiting.{process_schedule-Next}

-- Process 4 sleeps until tick 5, which is past.
abbrev one_sleeper : Kernel
one_sleeper = record three_processes {
  procs = λ p.
      if p == 4
      then record blank_pcb { state = ProcState.blocked; delay_until = 5 }
      else three_processes.procs p;
  clock_ticks = 7;
  process_table = λ i. if i == 0 then 2 else if i == 1 then 3 else if i == 2 then 4 else 0;
}

one_sleeper-IsReady : IsReady one_sleeper
one_sleeper-IsReady = record {
  distinct = (tt, tt);
  nonzero = (omega arith, tt);
  no_idle = (omega arith, tt);
  states = (refl, tt);
}

one_sleeper-IsTable : IsTable one_sleeper
unfolding IsTable
one_sleeper-IsTable = λ i j a b c. ground (arith, c)

process_schedule-Next_example :
    Next one_sleeper (process_schedule in_clock one_sleeper) (3 ∷ 4 ∷ 2 ∷ [])
    × IsReady (process_schedule in_clock one_sleeper)
unfolding expired_from
process_schedule-Next_example =
    process_schedule-Next one_sleeper one_sleeper-IsTable refl in_clock (omega arith)
      one_sleeper-IsReady

-- Process 3 sleeps until tick 9.
abbrev at_tick : ℕ → Kernel
at_tick t = record three_processes {
  procs = λ p. record blank_pcb { state = ProcState.blocked; delay_until = 9 };
  ready_queue = [];
  clock_ticks = t;
}

process_wake_delayed-Sleeps_example : Sleeps 3 9 (process_wake_delayed (at_tick 8))
process_wake_delayed-Sleeps_example =
    process_wake_delayed-Sleeps 3 9 (at_tick 8)
      (record { state = refl; until = refl; early = omega arith; absent = refl })

process_wake_delayed-Awake_example : Awake 3 (process_wake_delayed (at_tick 9))
process_wake_delayed-Awake_example =
    process_wake_delayed-Awake 3 1 (at_tick 9) (omega arith) refl (record {
      some_p = omega arith;
      user = omega arith;
      state = refl;
      delayed = omega arith;
      late = omega arith;
    })

-- The next process runs, and the caller goes to the end of the queue.
turn :
    ((process_schedule in_clock three_processes).current ≡ 3)
    × ((process_schedule in_clock three_processes).ready_queue ≡ 2 ∷ [])
unfolding process_schedule process_wake_delayed requeue_current wake_from wake_at process_make_ready
    process_next_ready process_switch kc_switch map_kernel_stack
turn = (refl, refl)
