-- ===== src/Trap/Tests.antt =====
-- The clock with one user process on the machine.
use yalnix.Base.{refl, [], inr, arith}
use yalnix.Hardware.Sample.{sample}
use yalnix.State.{Kernel, ProcState}
use yalnix.State.Sample.{three_processes}
use yalnix.Trap.Lone.{Alone, Lost, ticks, ticks-Lost_process}

abbrev one_process : Kernel
one_process = record three_processes { ready_queue = [] }

one_process-Alone : Alone 2 ProcState.running one_process
one_process-Alone = record {
  some_idle = omega arith;
  some_p = omega arith;
  user = omega arith;
  runs = refl;
  state = refl;
  queue = refl;
  no_delays = λ i lt. inr refl;
}

ticks-Lost_process_example : Lost 2 (ticks 10 one_process)
ticks-Lost_process_example = ticks-Lost_process 8 2 one_process one_process-Alone
