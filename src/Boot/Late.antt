-- ===== src/Boot/Late.antt =====
-- SetKernelBrk (src/kernelbrk.c) called between MemoryBuildKernelRegion0 (src/memory.c) and the MMU being
-- turned on, as an allocation of ProcessCreateIdle's may do.
use yalnix.Base.{ℕ, ◌≤◌, ◌<◌, ◌≡◌, refl, ◌≢◌, inl, inr, Bool, true, false, arith, ◌==◌, ltb}
use yalnix.Hardware.{Hardware, stack_base_page}
use yalnix.Memory.{Memory}
use yalnix.KernelBrk.{kernel_brk_page, requested_page, set_kernel_brk}
use yalnix.Boot.Region0.{KernelMapped}

module _ ⦃hw : Hardware⦄ (a : ℕ) (o : Memory) where
  -- The request was granted: the heap is to have the pages from the old break to the new one, but they
  -- are not mapped, and the frames of their numbers are as they were.
  pub Unmapped : Bool × Memory → Type 0
  Unmapped (ok, n) =
      (ok ≡ true)
      × (n.kernel_brk_page ≡ requested_page a)
      × ((j : ℕ)
          → o.kernel_brk_page ≤ j
          → j < n.kernel_brk_page
          → ((n.tables n.kernel_pt j).valid ≡ false) × (n.allocated j ≡ o.allocated j))

  -- The kernel's pages are mapped and the MMU is not on yet: a request of SetKernelBrk for more, below
  -- the kernel stack, returns SUCCESS and moves the break, but neither maps the new pages nor reserves their
  -- frames, so the heap has a hole once the MMU is on.
  pub set_kernel_brk-Unmapped :
      KernelMapped o
      → o.vm_enabled ≡ false
      → o.kernel_brk_page ≢ 0
      → o.kernel_brk_page < requested_page a
      → requested_page a ≤ stack_base_page
      → Unmapped (set_kernel_brk a o)
  unfolding set_kernel_brk kernel_brk_page Unmapped
  set_kernel_brk-Unmapped m off live more fits =
      let z : (o.kernel_brk_page == 0) ≡ false = ground (arith, live) in
      let high : ltb stack_base_page (requested_page a) ≡ false = ground arith in
      rw (z, off) (rw high (refl, refl, λ j c d. (m.gap j (inr c) (inl (omega arith)), refl)))
