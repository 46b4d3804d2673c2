-- ===== src/State.antt =====
-- The kernel's state: the PCB of src/process.h, the objects of src/ipc.c, the terminals of
-- src/tty.c and the global variables. A PCB lies at an address, and 0 is NULL. A queue is the list of
-- the PCBs whose entries it links (Queue/Fifo.antt).
--
-- A kernel context that KernelContextSwitch has saved stands for the rest of a kernel function: it
-- is a `Resume`, which names the place and holds the locals still needed. The trap frame `*uctxt`
-- is the current process's `user_context`: the handlers copy one to the other wherever control
-- enters or leaves them.
pub mod Sample
use yalnix.Base.{
  ℕ, Bool, true, false, List, [], ◌∷◌, Option, none, some, ℤ, pos, negsuc, ◌==◌, update,
  if◌then◌else◌, ◌≡◌, refl, ◌≢◌, arith, ==_refl,
}
use yalnix.Memory.{Memory}

pub data ProcState : Type 0 where
  empty ready running blocked zombie : ProcState

-- The framework's trap frame: what the kernel reads and writes of it.
pub record UserContext : Type 0 where
  pub vector : ℕ
  pub code : ℕ
  pub addr : ℕ
  pub pc : ℕ
  pub sp : ℕ
  pub regs : ℕ → ℤ

-- Where a process continues in the kernel when it is switched to; `unset` is a context that nothing was
-- saved in.
pub data Resume : Type 0 where
  unset in_boot in_clock in_fork in_delay in_exit : Resume
  in_wait : (status_ptr : ℕ) → Resume
  in_pipe_read : (pipe_id : ℕ) (buf len : ℕ) → Resume
  in_acquire : (lock_id : ℕ) → Resume
  in_cvar_wait : (cvar_id lock_id : ℕ) → Resume
  in_tty_read : (tty_id : ℕ) → Resume
  in_tty_write : (len : ℕ) → Resume

-- A line of terminal input: its bytes, and how many of them were read.
pub record TtyLine : Type 0 where
  pub len : ℕ
  pub pos : ℕ
  pub bytes : ℕ → ℕ

-- Which queue a process is blocked in.
pub data QueueRef : Type 0 where
  pipe_readers lock_waiters cvar_waiters tty_readers tty_writers : ℕ → QueueRef

-- `space` is what region 1 of the process holds.
pub record Pcb : Type 0 where
  pub pid : ℤ
  pub state : ProcState
  pub region1_pt : ℕ
  pub user_context : UserContext
  pub kernel_context : Resume
  pub kernel_stack_pfns : ℕ → ℕ
  pub user_brk : ℕ
  pub user_heap_start : ℕ
  pub user_stack_low_page : ℕ
  pub delay_until : ℕ
  pub exit_status : ℤ
  pub waiting_for_child : Bool
  pub tty_id : ℕ
  pub tty_read_buf : ℕ
  pub tty_read_len : ℕ
  pub tty_read_line : Option TtyLine
  pub tty_write_buf : ℕ → ℕ
  pub tty_write_len : ℕ
  pub tty_write_offset : ℕ
  pub parent : ℕ
  pub children : List ℕ
  pub block_queue : Option QueueRef
  pub space : ℕ → ℕ

pub record PipeState : Type 0 where
  pub buf : ℕ → ℕ
  pub len : ℕ
  pub cap : ℕ
  pub readers : List ℕ

pub record LockState : Type 0 where
  pub owner : ℕ
  pub waiters : List ℕ

pub data IpcObject : Type 0 where
  free : IpcObject
  pipe : PipeState → IpcObject
  lock : LockState → IpcObject
  cvar : (waiters : List ℕ) → IpcObject

-- `transmitted` is what was handed to TtyTransmit, latest first.
pub record TtyState : Type 0 where
  pub read_queue : List ℕ
  pub write_queue : List ℕ
  pub input_queue : List TtyLine
  pub line : Option TtyLine
  pub writer : ℕ
  pub busy : Bool
  pub transmitted : List (List ℕ)

-- Why the machine stopped.
pub data Stop : Type 0 where
  halt panic abort : Stop

pub record Kernel : Type 0 where
  pub memory : Memory
  pub procs : ℕ → Pcb
  pub current : ℕ
  pub idle : ℕ
  pub init : ℕ
  pub ready_queue : List ℕ
  pub clock_ticks : ℕ
  pub process_table : ℕ → ℕ
  pub objects : ℕ → IpcObject
  pub terminals : ℕ → TtyState
  pub stopped : Option Stop

abbrev pub modify : ℕ → (Pcb → Pcb) → Kernel → Kernel
modify p f k = record k { procs = update k.procs p (f (k.procs p)) }

pub modify-at : (p : ℕ) (f : Pcb → Pcb) (k : Kernel) → (modify p f k).procs p ≡ f (k.procs p)
modify-at p f k = rw (==_refl p) refl

pub modify-off :
    (p : ℕ) (f : Pcb → Pcb) (k : Kernel) (q : ℕ) → q ≢ p → (modify p f k).procs q ≡ k.procs q
modify-off p f k q other = let a : (p == q) ≡ false = ground (arith, other) in rw a refl

abbrev pub set_state : ProcState → Pcb → Pcb
set_state s b = record b { state = s }

abbrev pub set_reg0 : ℤ → Pcb → Pcb
set_reg0 v b = record b {
  user_context = record b.user_context { regs = update b.user_context.regs 0 v };
}

abbrev pub is_zombie : ProcState → Bool
is_zombie ProcState.zombie = true
is_zombie _ = false

abbrev pub is_running : ProcState → Bool
is_running ProcState.running = true
is_running _ = false

abbrev pub is_blocked : ProcState → Bool
is_blocked ProcState.blocked = true
is_blocked _ = false

abbrev pub error : ℤ
error = negsuc 0

abbrev pub success : ℤ
success = pos 0
