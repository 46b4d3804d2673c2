-- ===== src/State/Sample.antt =====
-- A kernel with three processes for the tests: the idle process at address 1, and the user processes
-- 2, which runs, and 3, which is ready.
use yalnix.Base.{◌*◌, true, false, none, [], ◌∷◌, pos, ◌==◌, if◌then◌else◌}
use yalnix.Memory.{Memory, zero_pte}
use yalnix.State.{Pcb, ProcState, UserContext, Resume, Kernel, free, TtyState}

abbrev pub blank_context : UserContext
blank_context = record { vector = 0; code = 0; addr = 0; pc = 0; sp = 0; regs = λ _. pos 0 }

abbrev pub blank_pcb : Pcb
blank_pcb = record {
  pid = pos 0;
  state = ProcState.empty;
  region1_pt = 8192;
  user_context = blank_context;
  kernel_context = Resume.in_boot;
  kernel_stack_pfns = λ _. 0;
  user_brk = 0;
  user_heap_start = 0;
  user_stack_low_page = 0;
  delay_until = 0;
  exit_status = pos 0;
  waiting_for_child = false;
  tty_id = 0;
  tty_read_buf = 0;
  tty_read_len = 0;
  tty_read_line = none;
  tty_write_buf = λ _. 0;
  tty_write_len = 0;
  tty_write_offset = 0;
  parent = 0;
  children = [];
  block_queue = none;
  space = λ a. a;
}

abbrev pub blank_terminal : TtyState
blank_terminal = record {
  read_queue = [];
  write_queue = [];
  input_queue = [];
  line = none;
  writer = 0;
  busy = false;
  transmitted = [];
}

abbrev pub blank_memory : Memory
blank_memory = record {
  frame_count = 4;
  allocated = λ p. p == 0;
  tables = λ _ _. zero_pte;
  kernel_pt = 4096;
  vm_enabled = true;
  flushes = [];
  kernel_brk_page = 5;
  highest_pre_vm_brk_page = 5;
  ptbr0 = 4096;
  ptlr0 = 128;
  ptbr1 = 8192;
  ptlr1 = 128;
}

abbrev pub three_processes : Kernel
three_processes = record {
  memory = blank_memory;
  procs = λ p. record blank_pcb {
    state =
        if p == 3 then ProcState.ready else if p == 2 then ProcState.running else ProcState.empty;
    region1_pt = 8192 * p;
  };
  current = 2;
  idle = 1;
  init = 2;
  ready_queue = 3 ∷ [];
  clock_ticks = 0;
  process_table = λ i. if i == 0 then 2 else if i == 1 then 3 else 0;
  objects = λ _. free;
  terminals = λ _. blank_terminal;
  stopped = none;
}
