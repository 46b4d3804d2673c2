-- ===== src/Fork.antt =====
-- SysFork of src/syscalls.c and what it calls of src/process.c: ProcessCreateChild, the kernel
-- stack of a new process, the copies of region 1 and of the kernel context. What calloc returns for
-- the PCB and for the page table, the process id that the framework gives and whether
-- KernelContextSwitch succeeds are arguments. calloc finds room in the
-- kernel's heap as it is, and memory that was handed back by `free` is not followed.
--
-- The two copies go through the kernel's scratch page, below its stack. That page maps the frame
-- that was just mapped in the child, so what is copied there is what the child's region 1 holds;
-- and the kernel stack is the `Resume` of the process.
pub mod Stack
pub mod Copy
pub mod Scratch
pub mod Promise
pub mod Child
pub mod Stacked
pub mod Clone
pub mod Unwind
pub mod Born
mod Tests
use yalnix.Base.{
  ℕ, zero, suc, ◌+◌, ◌-◌, ◌*◌, ◌/◌, ◌^◌, Bool, true, false, not, ◌&&◌, ◌||◌, Option, none, some, [],
  ◌==◌, ltb, if◌then◌else◌, update, ℤ, pos, negsuc, is_neg, to_ℕ, copy,
}
use yalnix.Hardware.{
  Hardware, page_size, prot_rw, address_of, page_of, stack_base_page, stack_pages,
}
use yalnix.Memory.{
  Memory, frame_alloc, frame_free, memory_map_page, memory_unmap_page, memory_alloc_page_table,
  memory_free_page_table_frames, write_register_flush,
}
use yalnix.State.{Kernel, Pcb, ProcState, Resume, UserContext, Stop, modify, set_reg0, error}
use yalnix.Queue.Fifo.{push_back}
use yalnix.Process.{process_make_ready}
use yalnix.Ipc.{Outcome, returned, no_process}
use yalnix.Life.{process_destroy, process_free_kernel_stack}

-- What `calloc` leaves in a PCB.
abbrev pub zero_pcb : Pcb
zero_pcb = record {
  pid = pos 0;
  state = ProcState.empty;
  region1_pt = 0;
  user_context = record { vector = 0; code = 0; addr = 0; pc = 0; sp = 0; regs = λ _. pos 0 };
  kernel_context = Resume.unset;
  kernel_stack_pfns = λ _. 0;
  user_brk = 0;
  user_heap_start = 0;
  user_stack_low_page = 0;
  delay_until = 0;
  exit_status = pos 0;
  waiting_for_child = false;
  tty_id = 0;
  tty_read_buf = 0;
  tty_read_len = 0;
  tty_read_line = none;
  tty_write_buf = λ _. 0;
  tty_write_len = 0;
  tty_write_offset = 0;
  parent = 0;
  children = [];
  block_queue = none;
  space = λ _. 0;
}

-- `pid == ERROR`
abbrev pub is_error : ℤ → Bool
is_error (pos n) = false
is_error (negsuc zero) = true
is_error (negsuc (suc n)) = false

-- `while (--i >= 0)`: the frames of the entries below `i`, given back.
pub give_back : (i : ℕ) → (ℕ → ℕ) → Memory → Memory
give_back zero pfns m = m
give_back (suc i) pfns m = give_back i pfns (frame_free (pos (pfns i)) m)

-- The loop of ProcessAllocKernelStack, with `i` frames behind and `left` ahead.
unfoldable pub alloc_stack : (left i : ℕ) → (ℕ → ℕ) → Memory → Bool × (ℕ → ℕ) × Memory
alloc_stack zero i pfns m = (true, pfns, m)
alloc_stack (suc left) i pfns m =
    let (frame, m₁) = frame_alloc m in
    elim frame [
      | none ↦ (false, pfns, give_back i pfns m₁)
      | some pfn ↦ alloc_stack left (i + 1) (update pfns i pfn) m₁
    ]

abbrev pub stack_given : ℕ → Kernel → Bool × (ℕ → ℕ) × Memory → Bool × Kernel
stack_given proc k (ok, pfns, m) =
    (ok, modify proc (λ b. record b { kernel_stack_pfns = pfns }) (record k { memory = m }))

module _ ⦃hw : Hardware⦄ where
  unfoldable pub process_alloc_kernel_stack : ℕ → Kernel → Bool × Kernel
  process_alloc_kernel_stack proc k =
      stack_given proc k (alloc_stack stack_pages 0 (k.procs proc).kernel_stack_pfns k.memory)

  -- The kernel's stack does not start at page 0.
  abbrev pub scratch_page : ℕ
  scratch_page = stack_base_page - 1

  -- `memcpy(scratch_addr, src_addr, PAGESIZE)` of page `i`.
  abbrev pub copy_bytes : (from : ℕ → ℕ) (i : ℕ) → (ℕ → ℕ) → ℕ → ℕ
  copy_bytes from i to =
      copy to (hw.vmem_1_base + address_of i) from (hw.vmem_1_base + address_of i) page_size

  -- The end of the body, once the frame is mapped in the child or could not be.
  abbrev pub fill_page :
      (from : ℕ → ℕ) (i pfn : ℕ) → (ℕ → ℕ) → Bool × Memory → Bool × (ℕ → ℕ) × Memory
  fill_page from i pfn to (true, m) = (
    true,
    copy_bytes from i to,
    (memory_map_page m.kernel_pt (pos scratch_page) (pos pfn) prot_rw m).1,
  )
  fill_page from i pfn to (false, m) = (false, to, frame_free (pos pfn) m)

  -- The body of ProcessCopyRegion1's loop, from the table `src` to the table `dst`.
  pub copy_page : (dst src : ℕ) (from : ℕ → ℕ) (i : ℕ) → (ℕ → ℕ) → Memory → Bool × (ℕ → ℕ) × Memory
  copy_page dst src from i to m =
      if (m.tables src i).valid
      then (let (frame, m₁) = frame_alloc m in
          elim frame [
            | none ↦ (false, to, m₁)
            | some pfn ↦
                fill_page from i pfn to
                  (memory_map_page dst (pos i) (pos pfn) (m.tables src i).prot m₁)
          ])
      else (true, to, m)

  pub copy_pages :
      (dst src : ℕ) (from : ℕ → ℕ) (left i : ℕ) → (ℕ → ℕ) → Memory → Bool × (ℕ → ℕ) × Memory
  copy_pages dst src from zero i to m = (true, to, m)
  copy_pages dst src from (suc left) i to m =
      let (ok, to', m') = copy_page dst src from i to m in
      let rest = copy_pages dst src from left (i + 1) to' m' in
      if ok then rest else (false, to', memory_free_page_table_frames dst m')

  -- What follows the loop of ProcessCopyRegion1.
  abbrev pub end_copy : Bool × (ℕ → ℕ) × Memory → Bool × (ℕ → ℕ) × Memory
  end_copy (false, to, m) = (false, to, m)
  end_copy (true, to, m) = (
    true,
    to,
    write_register_flush hw.tlb_flush_all (memory_unmap_page m.kernel_pt (pos scratch_page) m),
  )

  pub copy_region : (dst src : ℕ) (from : ℕ → ℕ) → (ℕ → ℕ) → Memory → Bool × (ℕ → ℕ) × Memory
  copy_region dst src from to m = end_copy (copy_pages dst src from hw.max_pt_len 0 to m)

  abbrev pub region_given : ℕ → Kernel → Bool × (ℕ → ℕ) × Memory → Bool × Kernel
  region_given dst k (ok, to, m) =
      (ok, modify dst (λ b. record b { space = to }) (record k { memory = m }))

  pub process_copy_region1 : (dst src : ℕ) → Kernel → Bool × Kernel
  process_copy_region1 dst src k = region_given dst k (
      copy_region (k.procs dst).region1_pt (k.procs src).region1_pt (k.procs src).space
        (k.procs dst).space k.memory)

  unfoldable pub process_register : ℕ → Kernel → Kernel
  process_register proc k =
      let pid = (k.procs proc).pid in
      if not (is_neg pid) && ltb (to_ℕ pid) hw.max_procs
      then record k { process_table = update k.process_table (to_ℕ pid) proc }
      else k

  -- The fields that ProcessCreateChild sets from the parent's.
  abbrev pub inherit : (pid : ℤ) (parent : ℕ) → Pcb → Pcb → Pcb
  inherit pid parent p b = record b {
    pid = pid;
    state = ProcState.ready;
    user_context = p.user_context;
    kernel_context = p.kernel_context;
    user_brk = p.user_brk;
    user_heap_start = p.user_heap_start;
    user_stack_low_page = p.user_stack_low_page;
    parent = parent;
    children = [];
    block_queue = none;
  }

  -- ProcessCreateChild from ProcessCopyRegion1's result on.
  abbrev pub enter : (parent child : ℕ) → Bool × Kernel → Bool × Kernel
  enter parent child (false, k) = (false, process_free_kernel_stack child k)
  enter parent child (true, k) = (
    true,
    process_register child
        (modify parent (λ b. record b { children = push_back b.children child }) k),
  )

  -- ProcessCreateChild from ProcessAllocKernelStack's result on.
  abbrev pub equip : (parent child : ℕ) (pid : ℤ) → Bool × Kernel → Bool × Kernel
  equip parent child pid (false, k) = (false, k)
  equip parent child pid (true, k) =
      if is_error pid
      then (false, process_free_kernel_stack child k)
      else enter parent child
          (process_copy_region1 child parent (modify child (inherit pid parent (k.procs parent)) k))

  -- The PCB that `calloc` returned, with its page table.
  abbrev pub place : (child child_pt : ℕ) → Memory → Kernel → Kernel
  place child child_pt m k = record k {
    memory = m;
    procs = update k.procs child (record zero_pcb { region1_pt = child_pt });
  }

  -- MemoryAllocPageTable panics where there is no memory.
  pub process_create_child : (child child_pt : ℕ) (pid : ℤ) (parent : ℕ) → Kernel → Bool × Kernel
  process_create_child child child_pt pid parent k =
      if child == 0 then (false, k) else elim (memory_alloc_page_table child_pt k.memory) [
        | none ↦ (false, record k { stopped = some Stop.panic })
        | some m ↦
            equip parent child pid (process_alloc_kernel_stack child (place child child_pt m k))
      ]

  -- The loop of KCCopy: every frame of the new kernel stack stands in the scratch page once.
  unfoldable pub copy_stack : (left i : ℕ) → (ℕ → ℕ) → Memory → Memory
  copy_stack zero i pfns m = m
  copy_stack (suc left) i pfns m =
      copy_stack left (i + 1) pfns
        (memory_map_page m.kernel_pt (pos scratch_page) (pos (pfns i)) prot_rw m).1

  abbrev pub clear_scratch : Memory → Memory
  clear_scratch m =
      write_register_flush hw.tlb_flush_kstack (memory_unmap_page m.kernel_pt (pos scratch_page) m)

  -- KCCopy: `resume` is the kernel context that is copied.
  unfoldable pub kc_copy : (proc : ℕ) → Resume → Kernel → Kernel
  kc_copy proc resume k =
      modify proc (λ b. record b { kernel_context = resume })
        (record k {
          memory =
              clear_scratch (copy_stack stack_pages 0 (k.procs proc).kernel_stack_pfns k.memory);
        })

  -- SysFork from ProcessCloneKernelContext's return on, in the parent and in the child.
  pub fork_resume : (child : ℕ) → Kernel → Outcome × Kernel
  fork_resume child k =
      if k.current == child
      then (returned (pos 0), k)
      else (returned (k.procs child).pid, process_make_ready child k)

  -- SysFork from ProcessCreateChild's result on.
  abbrev pub start_child : (child : ℕ) (cloned : Bool) → Bool × Kernel → Outcome × Kernel
  start_child child cloned (false, k) = (returned error, k)
  start_child child cloned (true, k) =
      let k₁ = modify child (set_reg0 (pos 0)) k in
      if cloned
      then fork_resume child (kc_copy child Resume.in_fork k₁)
      else (returned error, process_destroy child k₁)

  pub sys_fork : (child child_pt : ℕ) (pid : ℤ) (cloned : Bool) → Kernel → Outcome × Kernel
  sys_fork child child_pt pid cloned k =
      if no_process k
      then (returned error, k)
      else start_child child cloned (process_create_child child child_pt pid k.current k)
