-- ===== src/UserMemory.antt =====
-- The memory of a user process: SysBrk of src/syscalls.c, ProcessGrowStack of src/process.c and
-- MapRange of src/template.c. Addresses of region 1 are no lower than its base, so that subtracting
-- the base does not go below 0.
pub mod Brk
pub mod Range
mod Tests
use yalnix.Base.{
  ℕ, zero, suc, ◌+◌, ◌-◌, ◌/◌, ◌^◌, Bool, true, false, ◌||◌, Option, none, some, ◌==◌, leb, ltb,
  if◌then◌else◌, update, pos,
}
use yalnix.Hardware.{Hardware, page_of, prot_rw}
use yalnix.Memory.{
  Memory, frame_alloc, frame_free, memory_map_page, release_valid, write_register_flush,
}
use yalnix.Memory.Grow.{grow}
use yalnix.State.{Kernel, modify, error, success}
use yalnix.Ipc.{Outcome, returned}

module _ ⦃hw : Hardware⦄ where
  -- The first page of region 1 that starts at `addr` or above, counted from the base of the region.
  abbrev pub page_above : ℕ → ℕ
  page_above addr = page_of (hw.up_to_page addr - hw.vmem_1_base)

  abbrev pub drop_above : (old new pt : ℕ) → Bool × Memory → Bool × Memory
  drop_above old new pt (false, m) = (false, m)
  drop_above old new pt (true, m) = (true, release_valid (old - new) pt new m)

  -- The two loops of SysBrk.
  pub resize : (pt old new : ℕ) → Memory → Bool × Memory
  resize pt old new m = drop_above old new pt (grow pt old (new - old) 0 m)

  abbrev pub brk_refused : ℕ → Kernel → Bool
  brk_refused addr k =
      let b = k.procs k.current in
      k.current == 0
      || (b.user_heap_start == 0 || (ltb addr b.user_heap_start || leb hw.vmem_1_limit addr))

  -- The end of SysBrk.
  abbrev pub brk_set : (addr : ℕ) → Kernel → Bool × Memory → Outcome × Kernel
  brk_set addr k (false, m) =
      (returned error, record k { memory = write_register_flush hw.tlb_flush_1 m })
  brk_set addr k (true, m) = (
    returned success,
    modify k.current (λ b. record b { user_brk = hw.up_to_page addr })
        (record k { memory = write_register_flush hw.tlb_flush_1 m }),
  )

  pub sys_brk : ℕ → Kernel → Outcome × Kernel
  sys_brk addr k =
      let b = k.procs k.current in
      if brk_refused addr k || leb b.user_stack_low_page (page_above addr)
      then (returned error, k)
      else brk_set addr k (resize b.region1_pt (page_above b.user_brk) (page_above addr) k.memory)

  -- MapRange, with `left` pages ahead of page `i`. What was mapped stays where a frame is missing.
  unfoldable pub map_range : (pt prot left i : ℕ) → Memory → Bool × Memory
  map_range pt prot zero i m = (true, m)
  map_range pt prot (suc left) i m =
      let (frame, m₁) = frame_alloc m in
      elim frame [
        | none ↦ (false, m₁)
        | some pfn ↦
            let (mapped, m₂) = memory_map_page pt (pos i) (pos pfn) prot m₁ in
            let rest = map_range pt prot left (i + 1) m₂ in
            if mapped then rest else (false, frame_free (pos pfn) m₂)
      ]

  -- The loop of ProcessGrowStack, down to page `fault`, with `left` pages to go.
  pub grow_down : (pt fault left : ℕ) → Memory → Bool × Memory
  grow_down pt fault zero m = (true, m)
  grow_down pt fault (suc left) m =
      let (frame, m₁) = frame_alloc m in
      elim frame [
        | none ↦ (false, m₁)
        | some pfn ↦
            let (mapped, m₂) = memory_map_page pt (pos (fault + left)) (pos pfn) prot_rw m₁ in
            let rest = grow_down pt fault left m₂ in
            if mapped then rest else (false, frame_free (pos pfn) m₂)
      ]

  -- The end of ProcessGrowStack.
  abbrev pub stack_set : (proc fault : ℕ) → Kernel → Bool × Memory → Bool × Kernel
  stack_set proc fault k (false, m) = (false, record k { memory = m })
  stack_set proc fault k (true, m) = (
    true,
    modify proc (λ b. record b { user_stack_low_page = fault })
        (record k { memory = write_register_flush hw.tlb_flush_1 m }),
  )

  pub process_grow_stack : (proc addr : ℕ) → Kernel → Bool × Kernel
  process_grow_stack proc addr k =
      let b = k.procs proc in
      let fault = page_of (addr - hw.vmem_1_base) in
      if proc == 0 || (ltb addr hw.vmem_1_base || leb hw.vmem_1_limit addr)
      then (false, k)
      else if leb b.user_stack_low_page fault || leb fault (page_above b.user_brk)
      then (false, k)
      else stack_set proc fault k
          (grow_down b.region1_pt fault (b.user_stack_low_page - fault) k.memory)
