-- ===== src/Dispatch.antt =====
-- SyscallDispatch of src/syscalls.c, and TrapKernel, the handlers that only trace and the trap vector
-- of src/trap.c. The codes of the calls and of the traps are the framework's: `call_of`
-- gives the case of the switch that a code selects, and a `Trap` stands for an entry of the vector. What the library and
-- the framework give in the course of a call is a record `World`.
--
-- A call that has given up the processor ends with `resume`, once its process is switched to.
pub mod Missing
mod Tests
use yalnix.Base.{ℕ, ◌^◌, ◌-◌, ◌%◌, Bool, List, ℤ, pos, negsuc, pattern_of, ◌==◌, if◌then◌else◌}
use yalnix.Hardware.{Hardware}
use yalnix.State.{
  Kernel, Resume, unset, in_boot, in_clock, in_fork, in_delay, in_exit, in_wait, in_pipe_read,
  in_acquire, in_cvar_wait, in_tty_read, in_tty_write, modify, set_reg0, error, success,
}
use yalnix.Ipc.{Outcome, returned, switched, hangs}
use yalnix.Ipc.Pipe.{sys_pipe_init, sys_pipe_read, sys_pipe_write, pipe_read_loop}
use yalnix.Ipc.Lock.{sys_lock_init, sys_acquire, sys_release, acquire_resume}
use yalnix.Ipc.Cvar.{
  sys_cvar_init, sys_cvar_signal, sys_cvar_broadcast, sys_cvar_wait, cvar_wait_resume, sys_reclaim,
}
use yalnix.Tty.{
  sys_tty_read, sys_tty_write, tty_read_loop, tty_write_resume, trap_tty_receive, trap_tty_transmit,
}
use yalnix.UserMemory.{sys_brk}
use yalnix.Life.{sys_exit, sys_wait, sys_get_pid, sys_delay, wait_resume, trap_memory, trap_abort}
use yalnix.Fork.{sys_fork, fork_resume}
use yalnix.Loader.{File}
use yalnix.Exec.{sys_exec}
use yalnix.Trap.{trap_clock}

-- The cases of SyscallDispatch.
pub data Call : Type 0 where
  fork exec exit wait get_pid brk delay tty_read tty_write pipe_init pipe_read pipe_write
        lock_init :
      Call
  acquire release cvar_init cvar_signal cvar_broadcast cvar_wait reclaim unsupported : Call

-- The traps that the vector tells apart.
pub data Trap : Type 0 where
  clock kernel memory illegal math tty_receive tty_transmit disk unhandled : Trap

pub record World : Type 0 where
  pub malloc_ok : Bool
  pub allocs : ℕ → Bool
  pub child : ℕ
  pub child_pt : ℕ
  pub pid : ℤ
  pub cloned : Bool
  pub files : List ℕ → File
  pub calloc_ok : Bool
  pub received : ℤ
  pub line_data : ℕ → ℕ

-- The case of YALNIX_EXEC: the loaded context replaces the caller's, or the result is ERROR.
abbrev pub after_exec : Outcome × Kernel → Outcome × Kernel
after_exec (returned (pos n), k) = (switched, k)
after_exec (returned (negsuc n), k) = (returned error, k)
after_exec (switched, k) = (switched, k)
after_exec (hangs, k) = (hangs, k)

-- `uctxt->regs[0] = ...`, where the call returns.
abbrev pub store_result : Outcome × Kernel → Outcome × Kernel
store_result (returned v, k) = (returned v, modify k.current (set_reg0 v) k)
store_result (switched, k) = (switched, k)
store_result (hangs, k) = (hangs, k)

-- The code that comes with a trap.
abbrev pub code_of : Kernel → ℤ
code_of k = pos (k.procs k.current).user_context.code

module _ ⦃hw : Hardware⦄ where
  -- The call that each case makes, with the registers as arguments: `r` as integers, `p` as pointers.
  pub sys_call : World → Call → (r : ℕ → ℤ) (p : ℕ → ℕ) → Kernel → Outcome × Kernel
  sys_call w fork r p k = sys_fork w.child w.child_pt w.pid w.cloned k
  sys_call w exec r p k = after_exec (sys_exec w.allocs w.files (p 0) (p 1) k)
  sys_call w exit r p k = (switched, sys_exit (r 0) k)
  sys_call w wait r p k = sys_wait (p 0) k
  sys_call w get_pid r p k = (sys_get_pid k, k)
  sys_call w brk r p k = sys_brk (p 0) k
  sys_call w delay r p k = sys_delay (r 0) k
  sys_call w tty_read r p k = sys_tty_read (r 0) (p 1) (r 2) k
  sys_call w tty_write r p k = sys_tty_write w.malloc_ok (r 0) (p 1) (r 2) k
  sys_call w pipe_init r p k = sys_pipe_init w.malloc_ok (p 0) k
  sys_call w pipe_read r p k = sys_pipe_read (r 0) (p 1) (r 2) k
  sys_call w pipe_write r p k = sys_pipe_write w.malloc_ok (r 0) (p 1) (r 2) k
  sys_call w lock_init r p k = sys_lock_init (p 0) k
  sys_call w acquire r p k = sys_acquire (r 0) k
  sys_call w release r p k = sys_release (r 0) k
  sys_call w cvar_init r p k = sys_cvar_init (p 0) k
  sys_call w cvar_signal r p k = sys_cvar_signal (r 0) k
  sys_call w cvar_broadcast r p k = sys_cvar_broadcast (r 0) k
  sys_call w cvar_wait r p k = sys_cvar_wait (r 0) (r 1) k
  sys_call w reclaim r p k = sys_reclaim (r 0) k
  sys_call w unsupported r p k = (returned error, k)

  pub syscall_dispatch : (call_of : ℕ → Call) → World → Kernel → Outcome × Kernel
  syscall_dispatch call_of w k =
      let c = (k.procs k.current).user_context in
      store_result (sys_call w (call_of c.code) c.regs (λ i. pattern_of (c.regs i)) k)

  -- The copies between the trap frame and the PCB are the identity here: the frame of a process is
  -- its `user_context`. After boot there is always a current process.
  pub trap_kernel : (call_of : ℕ → Call) → World → Kernel → Outcome × Kernel
  trap_kernel call_of w k = syscall_dispatch call_of w k

  -- The entries of the vector that TrapInit fills.
  pub trap : (call_of : ℕ → Call) → World → Trap → Kernel → Outcome × Kernel
  trap call_of w clock k = (switched, trap_clock k)
  trap call_of w kernel k = trap_kernel call_of w k
  trap call_of w memory k = (switched, trap_memory (k.procs k.current).user_context.addr k)
  trap call_of w illegal k = (switched, trap_abort k)
  trap call_of w math k = (switched, trap_abort k)
  trap call_of w tty_receive k =
      (switched, trap_tty_receive (code_of k) w.calloc_ok w.received w.line_data k)
  trap call_of w tty_transmit k = (switched, trap_tty_transmit (code_of k) k)
  trap call_of w disk k = (switched, k)
  trap call_of w unhandled k = (switched, k)

  -- The rest of a call, in the process that has been switched to. A process that has exited is not,
  -- nor is one whose context was never saved.
  pub resume_call : Resume → Kernel → Outcome × Kernel
  resume_call unset k = (hangs, k)
  resume_call in_boot k = (switched, k)
  resume_call in_clock k = (switched, k)
  resume_call in_fork k = store_result (fork_resume k.current k)
  resume_call in_delay k = store_result (returned success, k)
  resume_call in_exit k = (switched, k)
  resume_call (in_wait status_ptr) k = store_result (wait_resume status_ptr k)
  resume_call (in_pipe_read id buf len) k = store_result (pipe_read_loop id buf len k)
  resume_call (in_acquire id) k = store_result (acquire_resume id k)
  resume_call (in_cvar_wait id lock_id) k = store_result (cvar_wait_resume id lock_id k)
  resume_call (in_tty_read id) k = store_result (tty_read_loop id k)
  resume_call (in_tty_write len) k = store_result (tty_write_resume len k)

  pub resume : Kernel → Outcome × Kernel
  resume k = resume_call (k.procs k.current).kernel_context k
