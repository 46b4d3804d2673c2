-- ===== src/Trap.antt =====
-- src/trap.c: the clock handler. The trap frame is the current process's `user_context`, which the
-- framework's entry code and the handlers copy to and fro.
pub mod Lone
mod Tests
use yalnix.Base.{ℕ, ◌+◌, ◌%◌, ◌^◌}
use yalnix.Hardware.{Hardware}
use yalnix.State.{Kernel, Resume, in_clock}
use yalnix.Process.{process_schedule}

module _ ⦃hw : Hardware⦄ where
  pub trap_clock : Kernel → Kernel
  trap_clock k = process_schedule in_clock (record k { clock_ticks = (k.clock_ticks + 1) % 2 ^ 32 })
