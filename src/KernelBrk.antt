-- ===== src/KernelBrk.antt =====
-- src/kernelbrk.c: the kernel's own break. The two static variables of that file are fields of the
-- memory state.
pub mod Outcome
mod Tests
use yalnix.Base.{ℕ, ◌-◌, ◌/◌, ◌^◌, Bool, true, false, not, ◌&&◌, ◌==◌, ltb, if◌then◌else◌}
use yalnix.Hardware.{Hardware, page_of, stack_base_page}
use yalnix.Memory.{Memory, release_valid}
use yalnix.Memory.Grow.{grow}

module _ ⦃hw : Hardware⦄ where
  -- The first call takes the break from the linker's.
  abbrev pub start_brk : Memory → Memory
  start_brk m =
      if m.kernel_brk_page == 0
      then record m {
        kernel_brk_page = hw.orig_kernel_brk_page;
        highest_pre_vm_brk_page = hw.orig_kernel_brk_page;
      }
      else m

  unfoldable pub kernel_brk_page : Memory → ℕ × Memory
  kernel_brk_page m =
      let s = start_brk m in
      (
        if not s.vm_enabled && ltb s.kernel_brk_page s.highest_pre_vm_brk_page
            then s.highest_pre_vm_brk_page
            else s.kernel_brk_page,
        s,
      )

  -- The page that a request for `addr` asks for.
  abbrev pub requested_page : ℕ → ℕ
  requested_page addr =
      let page = page_of (hw.up_to_page addr) in
      if ltb page hw.orig_kernel_brk_page then hw.orig_kernel_brk_page else page

  -- What follows the loop that maps pages: nothing if it failed, else the loop that unmaps.
  abbrev pub settle : (old requested pt : ℕ) → Bool × Memory → Bool × Memory
  settle old requested pt (false, m) = (false, m)
  settle old requested pt (true, m) = (
    true,
    record (release_valid (old - requested) pt requested m) { kernel_brk_page = requested },
  )

  -- The part of SetKernelBrk behind its checks, with the MMU on.
  pub move_brk : (old requested : ℕ) → Memory → Bool × Memory
  move_brk old requested m =
      settle old requested m.kernel_pt (grow m.kernel_pt old (requested - old) 0 m)

  unfoldable pub set_kernel_brk : ℕ → Memory → Bool × Memory
  set_kernel_brk addr m =
      let (old, m₁) = kernel_brk_page m in
      let requested = requested_page addr in
      if ltb stack_base_page requested
      then (false, m₁)
      else if not m₁.vm_enabled
      then (
        true,
        record m₁ {
          highest_pre_vm_brk_page =
              if ltb m₁.highest_pre_vm_brk_page requested
              then requested
              else m₁.highest_pre_vm_brk_page;
          kernel_brk_page = requested;
        },
      )
      else move_brk old requested m₁
