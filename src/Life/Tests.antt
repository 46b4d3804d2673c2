-- ===== src/Life/Tests.antt =====
-- A process with two children, of which the second is a zombie.
use yalnix.Base.{refl, [], ◌∷◌, arith, inr, pos, ◌==◌, if◌then◌else◌}
use yalnix.Hardware.Sample.{sample}
use yalnix.State.{Kernel, ProcState}
use yalnix.State.Sample.{blank_pcb, three_processes}
use yalnix.Life.{process_exit_current}
use yalnix.Life.Exit.{Exited, process_exit_current-Exited}

abbrev two_children : Kernel
two_children = record three_processes {
  procs = λ p. record blank_pcb {
    state = if p == 4 then ProcState.zombie else ProcState.blocked;
    parent = if p == 2 then 0 else 2;
    waiting_for_child = p == 2;
    children = if p == 2 then 3 ∷ 4 ∷ [] else [];
  };
}

-- The first child runs, and exits.
abbrev leaving : Kernel
leaving = record two_children { current = 3 }

process_exit_current-Exited_example :
    Exited (pos 7) leaving 3 2 (process_exit_current (pos 7) leaving)
process_exit_current-Exited_example =
    process_exit_current-Exited (pos 7) leaving (omega arith) (omega arith) (omega arith)
      (omega arith) (inr (omega arith, refl))
