-- ===== src/Dispatch/Tests.antt =====
-- A process of the sample kernel reads a pipe that there is not.
use yalnix.Base.{◌≡◌, refl, inr, ap, true, none, arith, pos, ◌==◌, if◌then◌else◌, to_ℕ}
use yalnix.Hardware.Sample.{sample}
use yalnix.State.{Kernel, modify, set_reg0, error}
use yalnix.State.Sample.{blank_context, blank_pcb, three_processes}
use yalnix.Ipc.{returned}
use yalnix.Dispatch.{Call, World, trap_kernel}
use yalnix.Dispatch.Missing.{Missing, trap_kernel-Missing}

abbrev world : World
world = record {
  malloc_ok = true;
  allocs = λ _. true;
  child = 4;
  child_pt = 40960;
  pid = pos 3;
  cloned = true;
  files = λ _. record {
    info = none;
    malloc_ok = true;
    text = none;
    data_bytes = none;
    residue = λ _. 0;
  };
  calloc_ok = true;
  received = pos 0;
  line_data = λ _. 0;
}

-- PipeRead(5, buf, 8)
abbrev reading : Kernel
reading = record three_processes {
  procs = λ p. record blank_pcb {
    user_context = record blank_context {
      regs = λ i. if i == 0 then pos 5 else if i == 1 then pos 0x10_0000 else pos 8;
    };
  };
}

reading-Missing : Missing Call.pipe_read (reading.procs reading.current).user_context.regs reading
unfolding Missing
reading-Missing = (inr refl, λ e. absurd (omega (arith, ap to_ℕ e)))

trap_kernel-Missing_example :
    trap_kernel (λ _. Call.pipe_read) world reading
    ≡ (returned error, modify reading.current (set_reg0 error) reading)
trap_kernel-Missing_example =
    trap_kernel-Missing reading (λ _. Call.pipe_read) world reading-Missing
