-- ===== src/Fork/Promise.antt =====
-- What SysFork of src/syscalls.c promises, to the parent, to the child and to the others.
use yalnix.Base.{ℕ, ◌+◌, ◌<◌, ◌≡◌, ◌≢◌, true, false, pos, update}
use yalnix.Hardware.{Hardware, stack_pages}
use yalnix.Memory.Short.{Short}
use yalnix.Memory.Isolation.{IsIsolated}
use yalnix.State.{Kernel, Resume, error}
use yalnix.Queue.Fifo.{push_back}
use yalnix.Process.Ready.{Awake}
use yalnix.Ipc.{Outcome, returned}
use yalnix.Fork.{scratch_page}
use yalnix.Fork.Copy.{InPage}
use yalnix.Fork.Copy.Region.{mapped_pages}

-- A user process calls fork, and calloc gives a PCB and a page table that nothing uses.
pub record CanFork ⦃hw : Hardware⦄ (child child_pt : ℕ) (k : Kernel) : Type 0 where
  pub user : k.current ≢ 0
  pub no_idle : k.current ≢ k.idle
  pub child_live : child ≢ 0
  pub child_new : child ≢ k.current
  pub child_no_idle : child ≢ k.idle
  pub pt_live : child_pt ≢ 0
  pub pt_new : child_pt ≢ (k.procs k.current).region1_pt
  pub pt_user : child_pt ≢ k.memory.kernel_pt
  pub parent_user : (k.procs k.current).region1_pt ≢ k.memory.kernel_pt
  pub kernel_live : k.memory.kernel_pt ≢ 0
  pub scratch_fits : scratch_page < hw.max_pt_len
  pub isolated : IsIsolated k.memory
  pub reserved : k.memory.allocated 0 ≡ true

-- SysFork made the child `n`, from the kernel `k` on: it runs on from the fork with 0 in register 0,
-- is ready and in the ready queue, one of its parent's children and in the process table; the
-- parent's result is its process id, and no other process has changed. Its region 1 maps the pages that its
-- parent's does, with the same protection and the same bytes, at frames that were free, its kernel
-- stack has frames of its own, and no two page table entries share a frame.
pub record Born ⦃hw : Hardware⦄ (child child_pt n : ℕ) (k : Kernel) (o : Outcome) (k' : Kernel)
    : Type 0 where
  pub result : o ≡ returned (pos n)
  pub awake : Awake child k'
  pub pid : (k'.procs child).pid ≡ pos n
  pub parent : (k'.procs child).parent ≡ k.current
  pub table : k'.process_table n ≡ child
  pub family :
      k'.procs k.current
      ≡ record (k.procs k.current) { children = push_back (k.procs k.current).children child }
  pub strangers : (q : ℕ) → q ≢ child → q ≢ k.current → k'.procs q ≡ k.procs q
  pub context : (k'.procs child).user_context ≡ record (k.procs k.current).user_context {
    regs = update (k.procs k.current).user_context.regs 0 (pos 0);
  }
  pub resume : (k'.procs child).kernel_context ≡ Resume.in_fork
  pub brk : (k'.procs child).user_brk ≡ (k.procs k.current).user_brk
  pub region : (k'.procs child).region1_pt ≡ child_pt
  pub mapped :
      (j : ℕ)
      → j < hw.max_pt_len
      → (k.memory.tables (k.procs k.current).region1_pt j).valid ≡ true
      → ((k'.memory.tables child_pt j).valid ≡ true)
        × ((k'.memory.tables child_pt j).prot
            ≡ (k.memory.tables (k.procs k.current).region1_pt j).prot)
        × (k.memory.allocated (k'.memory.tables child_pt j).pfn ≡ false)
  pub unmapped :
      (j : ℕ)
      → j < hw.max_pt_len
      → (k.memory.tables (k.procs k.current).region1_pt j).valid ≡ false
      → (k'.memory.tables child_pt j).valid ≡ false
  pub contents :
      (j a : ℕ)
      → j < hw.max_pt_len
      → (k.memory.tables (k.procs k.current).region1_pt j).valid ≡ true
      → InPage j a
      → (k'.procs child).space a ≡ (k.procs k.current).space a
  pub stack :
      (j : ℕ)
      → j < stack_pages
      → (k.memory.allocated ((k'.procs child).kernel_stack_pfns j) ≡ false)
        × (k'.memory.allocated ((k'.procs child).kernel_stack_pfns j) ≡ true)
  pub isolated : IsIsolated k'.memory

-- SysFork failed: fewer frames are free than the child's kernel stack and the parent's pages need; no other process has changed, nor have the queue and the table of the processes,
-- and the same frames are in use.
pub record Refused ⦃hw : Hardware⦄ (child : ℕ) (k : Kernel) (o : Outcome) (k' : Kernel)
    : Type 0 where
  pub result : o ≡ returned error
  pub short :
      Short
        (stack_pages
          + mapped_pages hw.max_pt_len 0 (k.memory.tables (k.procs k.current).region1_pt))
        k.memory
  pub others : (q : ℕ) → q ≢ child → k'.procs q ≡ k.procs q
  pub ready : k'.ready_queue ≡ k.ready_queue
  pub table : k'.process_table ≡ k.process_table
  pub frames : (p : ℕ) → k'.memory.allocated p ≡ k.memory.allocated p
