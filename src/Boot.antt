-- ===== src/Boot.antt =====
-- KernelStart of src/kernelstart.c, with MemoryInit and MemoryBuildKernelRegion0 of src/memory.c,
-- and ProcessInit, ProcessCreateIdle and ProcessCreateInit of src/process.c. A panic is `none`: the
-- machine stops.
--
-- What calloc and the framework give is a record `Machine`. The calloc of the kernel's page table may
-- call SetKernelBrk, with the addresses `requests`; its later calls find room in the heap there is.
pub mod Identity
pub mod Region0
pub mod Late
pub mod Heap
pub mod Made
pub mod Started
pub mod Reserve
mod Tests
use yalnix.Base.{
  ℕ, zero, suc, ◌+◌, ◌-◌, ◌*◌, ◌/◌, ◌^◌, Bool, true, false, not, ◌&&◌, Option, none, some, List, [],
  ◌∷◌, ◌==◌, leb, ltb, if◌then◌else◌, update, ◌>>=◌, ℤ, pos,
}
use yalnix.Hardware.{
  Hardware, page_size, page_of, prot_rw, prot_rx, stack_base_page, stack_limit_page,
}
use yalnix.Memory.{
  Memory, frame_alloc, frame_free, memory_map_page, memory_alloc_page_table,
  memory_install_page_tables, write_register_flush,
}
use yalnix.KernelBrk.{kernel_brk_page, set_kernel_brk}
use yalnix.State.{Kernel, Pcb, ProcState, Resume, UserContext, modify}
use yalnix.Process.{process_switch}
use yalnix.Ipc.{ipc_init}
use yalnix.Tty.{tty_init}
use yalnix.Life.{process_free_kernel_stack}
use yalnix.Fork.{zero_pcb, is_error, place, process_alloc_kernel_stack, process_register, kc_copy}
use yalnix.Loader.{File, Loaded, loaded, failed, killed, load_program}

-- `frame_allocated[i] = 1` for the frames from `lo` on below `hi`.
abbrev pub reserve : (lo hi : ℕ) → Memory → Memory
reserve lo hi m = record m {
  allocated = λ p. if leb lo p && (ltb p hi && ltb p m.frame_count) then true else m.allocated p;
}

-- What calloc, the framework, the command line and the files give.
pub record Machine : Type 0 where
  pub pmem_size : ℕ
  pub kernel_pt : ℕ
  pub requests : List ℕ
  pub idle : ℕ
  pub idle_pt : ℕ
  pub idle_pid : ℤ
  pub do_idle : ℕ
  pub init : ℕ
  pub init_pt : ℕ
  pub init_pid : ℤ
  pub cloned : Bool
  pub uctxt : UserContext
  pub cmd_args : List (List ℕ)
  pub files : List ℕ → File

-- The arguments of init: the command line, or the one argument `init`.
abbrev pub init_args : List (List ℕ) → List (List ℕ)
init_args [] = (105 ∷ 110 ∷ 105 ∷ 116 ∷ []) ∷ []
init_args (name ∷ args) = name ∷ args

abbrev pub init_name : List (List ℕ) → List ℕ
init_name [] = 105 ∷ 110 ∷ 105 ∷ 116 ∷ []
init_name (name ∷ args) = name

abbrev pub end_load : Loaded × Kernel → Option Kernel
end_load (loaded, k) = some k
end_load (failed, k) = none
end_load (killed, k) = none

-- The frame table of a machine with `count` frames.
abbrev pub clear_frames : (count : ℕ) → Memory → Memory
clear_frames count m = record m {
  frame_count = count;
  allocated = λ p. if ltb p count then false else m.allocated p;
}

module _ ⦃hw : Hardware⦄ where
  -- The calls of SetKernelBrk that an allocation makes.
  pub brk_calls : List ℕ → Memory → Memory
  brk_calls [] m = m
  brk_calls (a ∷ rest) m = brk_calls rest (set_kernel_brk a m).1

  -- The loop over the frames of the kernel's image and heap, up to KernelBrkPage().
  abbrev pub reserve_heap : Memory → Memory
  reserve_heap m = let (brk, m') = kernel_brk_page m in reserve 0 brk m'

  -- MemoryInit up to the allocation of the kernel's page table.
  pub reserve_kernel : (count : ℕ) → Memory → Memory
  reserve_kernel count m =
      reserve stack_base_page stack_limit_page (reserve_heap (clear_frames count m))

  pub memory_init : (pmem_size fresh : ℕ) (requests : List ℕ) → Memory → Option Memory
  memory_init pmem_size fresh requests m =
      let count = pmem_size / page_size in
      if ltb (hw.max_pmem_size / page_size) count
      then none
      else elim (memory_alloc_page_table fresh (brk_calls requests (reserve_kernel count m))) [
        | none ↦ none
        | some m' ↦ some (reserve_heap (record m' { kernel_pt = fresh }))
      ]

  -- `MemoryMapPage(kernel_region0_pt, page, page, prot)` for `left` pages from `page` on.
  pub map_identity : (left page prot : ℕ) → Memory → Memory
  map_identity zero page prot m = m
  map_identity (suc left) page prot m =
      map_identity left (page + 1) prot (memory_map_page m.kernel_pt (pos page) (pos page) prot m).1

  -- The three loops: text, data and heap, and the kernel stack.
  pub map_kernel : Memory → Memory
  map_kernel m =
      let text =
        map_identity (hw.first_kernel_data_page - hw.first_kernel_text_page)
          hw.first_kernel_text_page prot_rx m in
      let (brk, m') = kernel_brk_page text in
      let heap =
        map_identity (brk - hw.first_kernel_data_page) hw.first_kernel_data_page prot_rw m' in
      map_identity (stack_limit_page - stack_base_page) stack_base_page prot_rw heap

  pub memory_build_kernel_region0 : Memory → Option Memory
  memory_build_kernel_region0 m = if m.kernel_pt == 0 then none else some (map_kernel m)

  pub process_init : Kernel → Kernel
  process_init k = record k {
    process_table = λ i. if ltb i hw.max_procs then 0 else k.process_table i;
    ready_queue = [];
  }

  -- What ProcessCreateIdle sets of the PCB: two frames are the kernel stack that is in use.
  abbrev pub dress_idle : (pid : ℤ) (do_idle : ℕ) → UserContext → Pcb → Pcb
  dress_idle pid do_idle uctxt b = record b {
    pid = pid;
    state = ProcState.running;
    kernel_stack_pfns =
        update (update b.kernel_stack_pfns 0 stack_base_page) 1 (stack_base_page + 1);
    user_context = record uctxt { pc = do_idle; sp = hw.vmem_1_limit - 4 };
    children = [];
  }

  -- ProcessCreateIdle from FrameAlloc's return on.
  abbrev pub with_user_stack :
      (idle idle_pt : ℕ) (pid : ℤ) (do_idle : ℕ)
      → UserContext
      → Kernel
      → Option ℕ × Memory
      → Option Kernel
  with_user_stack idle idle_pt pid do_idle uctxt k (none, m) = none
  with_user_stack idle idle_pt pid do_idle uctxt k (some pfn, m) =
      if is_error pid
      then none
      else some (
          process_register idle (
            modify idle (dress_idle pid do_idle uctxt) (record k {
              memory = (memory_map_page idle_pt (pos (hw.max_pt_len - 1)) (pos pfn) prot_rw m).1;
            })))

  -- Where it fails, KernelStart panics.
  pub process_create_idle :
      (idle idle_pt : ℕ) (pid : ℤ) (do_idle : ℕ) → UserContext → Kernel → Option Kernel
  process_create_idle idle idle_pt pid do_idle uctxt k =
      if idle == 0 then none else elim (memory_alloc_page_table idle_pt k.memory) [
        | none ↦ none
        | some m ↦
            with_user_stack idle idle_pt pid do_idle uctxt (place idle idle_pt m k) (frame_alloc m)
      ]

  abbrev pub dress_init : (pid : ℤ) → UserContext → Pcb → Pcb
  dress_init pid uctxt b = record b {
    pid = pid;
    state = ProcState.ready;
    user_context = uctxt;
    user_stack_low_page = hw.max_pt_len;
    children = [];
  }

  -- ProcessCreateInit from ProcessAllocKernelStack's return on.
  abbrev pub with_kernel_stack : (init : ℕ) (pid : ℤ) → UserContext → Bool × Kernel → Option Kernel
  with_kernel_stack init pid uctxt (false, k) = none
  with_kernel_stack init pid uctxt (true, k) =
      if is_error pid
      then none
      else some (process_register init (modify init (dress_init pid uctxt) k))

  pub process_create_init : (init init_pt : ℕ) (pid : ℤ) → UserContext → Kernel → Option Kernel
  process_create_init init init_pt pid uctxt k =
      if init == 0 then none else elim (memory_alloc_page_table init_pt k.memory) [
        | none ↦ none
        | some m ↦
            with_kernel_stack init pid uctxt
              (process_alloc_kernel_stack init (place init init_pt m k))
      ]

  -- ProcessCreateIdle's end to the MMU turned on.
  abbrev pub enable : (idle : ℕ) → Kernel → Kernel
  enable idle k =
      let m = memory_install_page_tables (k.procs idle).region1_pt k.memory in
      record k {
        current = idle;
        idle = idle;
        memory = write_register_flush hw.tlb_flush_all (record m { vm_enabled = true });
      }

  -- KernelStart once init was made: the idle process switches to init, which loads its program.
  abbrev pub start_init : Machine → Kernel → Option Kernel
  start_init b k =
      if not b.cloned
      then none
      else end_load (
          load_program (b.files (init_name b.cmd_args)) (init_args b.cmd_args) b.init
            (process_switch b.init Resume.in_boot (kc_copy b.init Resume.in_boot k)))

  pub kernel_start : Machine → Kernel → Option Kernel
  kernel_start b k = do
    let k₀ = process_init k
    m₁ ← memory_init b.pmem_size b.kernel_pt b.requests k₀.memory
    m₂ ← memory_build_kernel_region0 m₁
    k₃ ←
        process_create_idle b.idle b.idle_pt b.idle_pid b.do_idle b.uctxt
          (tty_init (ipc_init (record k₀ { memory = m₂ })))
    k₄ ← process_create_init b.init b.init_pt b.init_pid b.uctxt (enable b.idle k₃)
    start_init b (record k₄ { init = b.init })
