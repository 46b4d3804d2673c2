-- ===== src/UserMemory/Tests.antt =====
-- The heap of the sample kernel's running process, and a range of its pages.
use yalnix.Base.{refl, arith}
use yalnix.Hardware.Sample.{sample}
use yalnix.Memory.Isolation.{IsIsolated}
use yalnix.State.{Kernel}
use yalnix.State.Sample.{blank_memory, blank_pcb, three_processes}
use yalnix.UserMemory.{map_range}
use yalnix.UserMemory.Range.{Mapped, map_range-Mapped}

-- The heap starts at page 4 of region 1, and the stack at page 100.
abbrev with_heap : Kernel
with_heap = record three_processes {
  procs = λ p. record blank_pcb {
    user_brk = 0x10_8000;
    user_heap_start = 0x10_8000;
    user_stack_low_page = 100;
  };
}

blank_memory-IsIsolated : IsIsolated blank_memory
blank_memory-IsIsolated = record { held = λ t i h. cc; apart = λ t i u j h k e. cc }

map_range-Mapped_example : Mapped 8192 10 12 3 blank_memory (map_range 8192 3 2 10 blank_memory)
map_range-Mapped_example =
    map_range-Mapped 8192 10 3 blank_memory (omega arith) 2 (omega arith) (λ j a b. refl)
      blank_memory-IsIsolated
