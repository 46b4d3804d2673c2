-- ===== src/Boot/Heap.antt =====
-- SetKernelBrk (src/kernelbrk.c) called again and again after KernelStart (src/kernelstart.c) has turned the MMU
-- on, in the memory that MemoryInit and MemoryBuildKernelRegion0 (src/memory.c) have set up.
use yalnix.Base.{ℕ, ◌/◌, ◌≤◌, ◌≡◌, ◌≢◌, false, true, List, [], ◌∷◌, some, arith, ◌>>=◌}
use yalnix.Hardware.{Hardware, page_size, stack_base_page}
use yalnix.Memory.{Memory}
use yalnix.KernelBrk.{set_kernel_brk}
use yalnix.KernelBrk.Outcome.{IsHeap, set_kernel_brk-IsHeap}
use yalnix.Boot.{memory_init, memory_build_kernel_region0, brk_calls}
use yalnix.Boot.Reserve.{Climbs}
use yalnix.Boot.Region0.{Laid, Booted, memory_init-Booted}

module _ ⦃hw : Hardware⦄ where
  -- The calls of SetKernelBrk in a list keep the heap well formed, whether they succeed or not.
  brk_calls-IsHeap :
      (later : List ℕ) (m : Memory)
      → stack_base_page ≤ hw.max_pt_len
      → hw.orig_kernel_brk_page ≢ 0
      → IsHeap m
      → IsHeap (brk_calls later m)
  unfolding brk_calls
  brk_calls-IsHeap [] m top nz h = h
  brk_calls-IsHeap (a ∷ later) m top nz h =
      brk_calls-IsHeap later (set_kernel_brk a m).1 top nz (set_kernel_brk-IsHeap m h top a nz)

  -- The boot does not panic, and the heap is well formed after any calls of SetKernelBrk that follow it.
  pub KeepsHeap : (pmem_size pt : ℕ) (requests : List ℕ) → Memory → Type 0
  KeepsHeap pmem_size pt requests m =
      (o : Memory) × ((memory_init pmem_size pt requests m >>= memory_build_kernel_region0)
        ≡ some o)
      × ((later : List ℕ) → IsHeap (brk_calls later (record o { vm_enabled = true })))

  -- A machine whose frames, page table and frame table have room for the kernel's image and stack, with empty
  -- page tables, and calloc that gives a page table and calls SetKernelBrk for no less each time:
  -- the memory is set up without a panic, and after every list of calls of SetKernelBrk that follow each other with the MMU on, no two
  -- page table entries share a frame, and no page from the kernel's break to its stack is mapped.
  pub memory_init-KeepsHeap :
      (pmem_size pt : ℕ) (requests : List ℕ) (m : Memory)
      → pmem_size / page_size ≤ hw.max_pmem_size / page_size
      → Laid (pmem_size / page_size)
      → pt ≢ 0
      → m.kernel_brk_page ≡ 0
      → m.vm_enabled ≡ false
      → hw.orig_kernel_brk_page ≢ 0
      → hw.orig_kernel_brk_page ≤ stack_base_page
      → Climbs hw.orig_kernel_brk_page requests
      → ((t j : ℕ) → (m.tables t j).valid ≡ false)
      → KeepsHeap pmem_size pt requests m
  unfolding KeepsHeap Booted
  memory_init-KeepsHeap pmem_size pt requests m fits laid live fresh off orig low up empty =
      let (o, e, mapped, heap) =
        memory_init-Booted pmem_size pt requests m fits laid live fresh off orig low up empty in
      let top : stack_base_page ≤ hw.max_pt_len = omega (arith, laid.stack, laid.table) in
      (o, e, λ later. brk_calls-IsHeap later (record o { vm_enabled = true }) top orig heap)
