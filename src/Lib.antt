-- ===== src/Lib.antt =====
-- The Yalnix kernel: a small Unix-like teaching kernel in C, that runs on the simulated machine of
-- the Yalnix framework. This library models its logic as functions on an explicit kernel state and
-- proves what they do. Paths below are from the repository's root.
--
-- The parts, and the files that model them:
-- - Queue (src/Queue.c, src/Queue.h): intrusive circular lists. Queue.antt has the pointer code
--   over a heap of links; Queue/Fifo.antt the list of entries that it implements, which every
--   other part uses for its queues; Queue/Refine.antt, Queue/Trace.antt and Queue/Frame.antt
--   relate the two.
-- - Memory (src/memory.c): the frame table and the page tables, Memory.antt: FrameAlloc is
--   frame_alloc, MemoryMapPage is memory_map_page, and so on. Memory/Grow.antt is the loop, common
--   to SetKernelBrk and SysBrk, that maps fresh frames and takes them back on failure;
--   Memory/Short.antt says what it means that too few frames are free; Memory/Isolation.antt has
--   the condition that no two entries share a frame.
-- - The kernel's heap (src/kernelbrk.c): SetKernelBrk and KernelBrkPage, KernelBrk.antt.
-- - Processes (src/process.c, src/process.h): the PCB and the kernel's state, State.antt; the
--   ready queue and the scheduler, Process.antt: ProcessSchedule is process_schedule, KCSwitch is
--   kc_switch. Process/Expired.antt and Process/Waiting.antt say who waits for the processor, and
--   in which order.
-- - IPC (src/ipc.c): the object table, Ipc.antt; pipes, Ipc/Pipe.antt; the wake-ups,
--   Ipc/Wake.antt; locks, Ipc/Lock.antt; condition variables and SysReclaim, Ipc/Cvar.antt.
--   Ipc/Invariant.antt and its children have what holds of every object between system calls.
-- - Terminals (src/tty.c): Tty.antt; SysTtyRead is sys_tty_read, TrapTtyTransmit is
--   trap_tty_transmit, and so on.
-- - The memory of a process: SysBrk (src/syscalls.c), ProcessGrowStack (src/process.c) and
--   MapRange (src/template.c), UserMemory.antt.
-- - The end of a process: ProcessExitCurrent and ProcessDestroy (src/process.c), SysExit, SysWait,
--   SysDelay and SysGetPid (src/syscalls.c), TrapMemory and TrapAbort (src/trap.c), Life.antt.
-- - Boot: KernelStart (src/kernelstart.c), MemoryInit and MemoryBuildKernelRegion0 (src/memory.c),
--   ProcessInit, ProcessCreateIdle and ProcessCreateInit (src/process.c), Boot.antt.
--   Boot/Reserve.antt is about the frames that are reserved, Boot/Region0.antt about the kernel's
--   own mappings, Boot/Heap.antt about the calls of SetKernelBrk that follow, Boot/Late.antt about
--   a call before the MMU is on. Boot/Made.antt is about the first two processes,
--   Boot/Started.antt about KernelStart as a whole.
-- - Fork: SysFork (src/syscalls.c), ProcessCreateChild and what it calls (src/process.c),
--   Fork.antt. Fork/Stack.antt is about the frames of a new kernel stack, Fork/Copy.antt and its
--   children about the copy of region 1, Fork/Promise.antt has what a fork promises, and
--   Fork/Born.antt the proof.
-- - Exec: LoadProgram (src/template.c), Loader.antt; SysExec and the copies of its arguments
--   (src/syscalls.c), Exec.antt. Exec/Promise.antt has what LoadProgram promises,
--   Exec/Program.antt the proof, Exec/Roundtrip.antt about its arguments, Exec/Execed.antt about
--   SysExec as a whole.
-- - Traps (src/trap.c): the clock handler, Trap.antt; SyscallDispatch (src/syscalls.c), TrapKernel
--   and the vector, Dispatch.antt.
--
-- How they interact: every blocking system call puts the current process at the end of a queue and
-- calls process_schedule, which switches to the head of the ready queue; the calls that end a
-- wait, and the interrupt handlers, put the process back by process_make_ready. The interrupt
-- handlers of the clock and of the terminals, and the system calls, are the steps of the kernel:
-- with the MMU on nothing else changes its state.
--
-- Conventions. Addresses are natural numbers, and 0 is NULL. ERROR and SUCCESS of an internal
-- function are none and some, or false and true; a system call's result is an Outcome (Ipc.antt),
-- which is switched where the call has given up the processor. The rest of such a call, from the
-- wait on, is a function of its own (acquire_resume, pipe_read_loop, cvar_wait_resume,
-- tty_read_loop, tty_write_resume), and the saved kernel context of the process is a Resume that
-- names it. The trap frame is the current process's user_context. Region 1 of a process, as the
-- kernel reads and writes it, is the field space of its PCB. A queue of PCBs is the list of their
-- addresses.
--
-- Machine integers: the length of a queue, the clock, and the capacity and length of a pipe are
-- 32-bit patterns, with the wrap-around written out. Frame numbers, page indices and the lengths
-- of terminal lines are bounded by the machine's sizes and are natural numbers, with the tests on
-- their sign kept where a caller passes an integer.
--
-- Parameters, for what is not in the repository: the constants of the framework's headers are a
-- record Hardware that is an instance argument; malloc and calloc are given as what they return;
-- what memcpy leaves where its blocks overlap is a parameter, since it is not specified; what
-- TtyReceive returns and writes is a parameter of the handler, and what TtyTransmit is given is
-- recorded. KernelContextSwitch is taken to call the function that it is passed, and, but for
-- fork, to succeed. For fork, calloc's addresses, the process id and the success of
-- KernelContextSwitch are arguments; for exec, what open, LoadInfo, malloc and read give, and what
-- the frames held that a program is given, is a record File; the codes of the system calls are a
-- function to the cases of the switch. Sample values for all of these stand in
-- Hardware/Sample.antt and State/Sample.antt.
--
-- Fuel: only the loop of PipeEnsureCapacity that doubles the capacity runs on fuel, 32 of it: a
-- positive int passes 2^30 within 31 doublings. All other loops are counted or follow a list.
--
-- Not modelled: memory that was given back to malloc by free, so FreeExecArgs as well; that an
-- allocation of the kernel's, other than that of its page table, makes the kernel's heap larger;
-- the bytes of kernel stacks; the idle loop and the empty scratchpads (src/idle.c, src/re0sp.c,
-- src/re1sp.c); the test programs under user/. Tracing is left out.
pub mod Base
pub mod Boot
pub mod Dispatch
pub mod Exec
pub mod Fork
pub mod Hardware
pub mod Ipc
pub mod KernelBrk
pub mod Life
pub mod Loader
pub mod Memory
pub mod Process
pub mod Queue
pub mod State
pub mod Trap
pub mod Tty
pub mod UserMemory
