-- ===== src/Life.antt =====
-- The end of a process, and the calls that wait: ProcessExitCurrent, ProcessDestroy and
-- ProcessFreeKernelStack of src/process.c, SysWait, SysExit, SysDelay and SysGetPid of
-- src/syscalls.c, and the traps of src/trap.c that may end a process. What the framework notes of a
-- process id is left out.
pub mod Exit
pub mod Wait
mod Tests
use yalnix.Base.{
  ℕ, zero, suc, ◌+◌, ◌%◌, ◌^◌, Bool, true, false, not, ◌&&◌, ◌||◌, Option, none, some, List, [],
  ◌∷◌, ◌==◌, leb, ltb, if◌then◌else◌, update, ℤ, pos, is_neg, to_ℕ, store_int,
}
use yalnix.Hardware.{Hardware, stack_pages}
use yalnix.Memory.{Memory, frame_free, memory_free_page_table_frames}
use yalnix.State.{
  Kernel, Pcb, ProcState, Resume, in_exit, in_wait, in_delay, QueueRef, pipe_readers, lock_waiters,
  cvar_waiters, tty_readers, tty_writers, IpcObject, free, pipe, lock, cvar, Stop, halt, panic,
  modify, set_reg0, is_zombie, error, success,
}
use yalnix.Queue.Fifo.{remove, is_empty}
use yalnix.Process.{process_make_ready, process_schedule}
use yalnix.Ipc.{Outcome, returned, switched, put_object, no_process}
use yalnix.Ipc.Lock.{ipc_process_exit}
use yalnix.Tty.{put_tty}
use yalnix.UserMemory.{process_grow_stack}

-- The loop that takes every child from the list and forgets its parent.
pub orphan_all : List ℕ → Kernel → Kernel
orphan_all [] k = k
orphan_all (c ∷ cs) k = orphan_all cs (modify c (λ b. record b { parent = 0 }) k)

abbrev pub drop_children : ℕ → Kernel → Kernel
drop_children proc k =
    orphan_all (k.procs proc).children (modify proc (λ b. record b { children = [] }) k)

-- A parent that waits for a child is made ready.
abbrev pub notify_parent : ℕ → Kernel → Kernel
notify_parent parent k =
    if not (parent == 0) && (k.procs parent).waiting_for_child
    then process_make_ready parent (modify parent (λ b. record b { waiting_for_child = false }) k)
    else k

-- QueueRemove of the process from the queue in which it is blocked.
abbrev pub without : ℕ → IpcObject → IpcObject
without proc free = free
without proc (pipe p) = pipe (record p { readers = remove proc p.readers })
without proc (lock l) = lock (record l { waiters = remove proc l.waiters })
without proc (cvar q) = cvar (remove proc q)

pub leave_queue : Option QueueRef → ℕ → Kernel → Kernel
leave_queue none proc k = k
leave_queue (some (pipe_readers id)) proc k = put_object id (without proc (k.objects id)) k
leave_queue (some (lock_waiters id)) proc k = put_object id (without proc (k.objects id)) k
leave_queue (some (cvar_waiters id)) proc k = put_object id (without proc (k.objects id)) k
leave_queue (some (tty_readers id)) proc k =
    let t = k.terminals id in put_tty id (record t { read_queue = remove proc t.read_queue }) k
leave_queue (some (tty_writers id)) proc k =
    let t = k.terminals id in put_tty id (record t { write_queue = remove proc t.write_queue }) k

-- The child that SysWait finds: the first zombie.
pub find_zombie : List ℕ → Kernel → Option ℕ
find_zombie [] k = none
find_zombie (c ∷ cs) k = if is_zombie (k.procs c).state then some c else find_zombie cs k

module _ ⦃hw : Hardware⦄ where
  pub process_exit_current : (status : ℤ) → Kernel → Kernel
  process_exit_current status k =
      let proc = k.current in
      if proc == 0 || proc == k.idle
      then record k { stopped = some panic }
      else if proc == k.init
      then record k { stopped = some halt }
      else process_schedule in_exit (
          notify_parent (k.procs proc).parent (
            modify proc (λ b. record b { exit_status = status; state = ProcState.zombie })
              (ipc_process_exit proc (drop_children proc k))))

  unfoldable pub free_stack_frames : (left i : ℕ) → (ℕ → ℕ) → Memory → Memory
  free_stack_frames zero i pfns m = m
  free_stack_frames (suc left) i pfns m =
      free_stack_frames left (i + 1) pfns (if pfns i == 0 then m else frame_free (pos (pfns i)) m)

  unfoldable pub process_free_kernel_stack : ℕ → Kernel → Kernel
  process_free_kernel_stack proc k =
      if proc == k.idle
      then k
      else modify proc
          (λ b. record b {
            kernel_stack_pfns = λ i. if ltb i stack_pages then 0 else b.kernel_stack_pfns i;
          })
          (record k {
            memory = free_stack_frames stack_pages 0 (k.procs proc).kernel_stack_pfns k.memory;
          })

  abbrev pub leave_parent : (parent proc : ℕ) → Kernel → Kernel
  leave_parent parent proc k =
      if parent == 0
      then k
      else modify parent (λ b. record b { children = remove proc b.children }) k

  abbrev pub unregister : ℕ → Kernel → Kernel
  unregister proc k = record k {
    process_table = λ i.
        if not (is_neg (k.procs proc).pid)
          && (i == to_ℕ (k.procs proc).pid && (ltb i hw.max_procs && k.process_table i == proc))
        then 0
        else k.process_table i;
  }

  abbrev pub leave_queues : ℕ → Kernel → Kernel
  leave_queues proc k =
      leave_queue (k.procs proc).block_queue proc
        (record k { ready_queue = remove proc k.ready_queue })

  abbrev pub free_space : ℕ → Kernel → Kernel
  free_space proc k = record k {
    memory = memory_free_page_table_frames (k.procs proc).region1_pt k.memory;
  }

  -- The PCB is freed at the end, so its own link to a queue is left as it is.
  pub process_destroy : ℕ → Kernel → Kernel
  process_destroy proc k =
      if proc == 0
      then k
      else process_free_kernel_stack proc (
          free_space proc (
            unregister proc
              (leave_queues proc (drop_children proc (leave_parent (k.procs proc).parent proc k)))))

  -- `*status_ptr = status`, unless the pointer is NULL.
  abbrev pub store_status : (status_ptr : ℕ) → ℤ → Kernel → Kernel
  store_status status_ptr status k =
      if status_ptr == 0
      then k
      else modify k.current (λ b. record b { space = store_int status_ptr status b.space }) k

  abbrev pub reap_or_wait : (status_ptr : ℕ) → Option ℕ → Kernel → Outcome × Kernel
  reap_or_wait status_ptr (some c) k = (
    returned (k.procs c).pid,
    process_destroy c (store_status status_ptr (k.procs c).exit_status k),
  )
  reap_or_wait status_ptr none k =
      if is_empty (k.procs k.current).children then (returned error, k) else (
        switched,
        process_schedule (in_wait status_ptr) (
            modify k.current (λ b. record b { waiting_for_child = true; state = ProcState.blocked })
              k),
      )

  -- The loop of SysWait, first and after every wait.
  pub wait_loop : (status_ptr : ℕ) → Kernel → Outcome × Kernel
  wait_loop status_ptr k = reap_or_wait status_ptr (find_zombie (k.procs k.current).children k) k

  pub sys_wait : (status_ptr : ℕ) → Kernel → Outcome × Kernel
  sys_wait status_ptr k = if no_process k then (returned error, k) else wait_loop status_ptr k

  pub wait_resume : (status_ptr : ℕ) → Kernel → Outcome × Kernel
  wait_resume status_ptr k =
      wait_loop status_ptr (modify k.current (λ b. record b { waiting_for_child = false }) k)

  pub sys_exit : (status : ℤ) → Kernel → Kernel
  sys_exit status k = process_exit_current status k

  pub sys_get_pid : Kernel → Outcome
  sys_get_pid k = if k.current == 0 then returned error else returned (k.procs k.current).pid

  pub sys_delay : (ticks : ℤ) → Kernel → Outcome × Kernel
  sys_delay ticks k =
      if is_neg ticks
      then (returned error, k)
      else if to_ℕ ticks == 0
      then (returned success, k)
      else if no_process k
      then (returned error, k)
      else (
        switched,
        process_schedule in_delay (
            modify k.current
              (λ b. record (set_reg0 success b) {
                delay_until = (k.clock_ticks + to_ℕ ticks) % 2 ^ 32;
                state = ProcState.blocked;
              })
              k),
      )

  pub trap_memory : (addr : ℕ) → Kernel → Kernel
  trap_memory addr k =
      let (grown, k₁) = process_grow_stack k.current addr k in
      if grown then k₁ else process_exit_current error k₁

  pub trap_abort : Kernel → Kernel
  trap_abort k = process_exit_current error k
