-- ===== src/Memory/Grow.antt =====
-- The loop that SetKernelBrk (src/kernelbrk.c) and SysBrk (src/syscalls.c) share: map fresh frames
-- at the pages from `old` on, and take all of it back if one cannot be had.
pub mod Ledger
pub mod Rollback
use yalnix.Base.{ℕ, zero, suc, ◌+◌, Bool, true, false, Option, none, some, if◌then◌else◌, pos}
use yalnix.Hardware.{Hardware, prot_rw}
use yalnix.Memory.{Memory, frame_alloc, frame_free, memory_map_page, release_page}

module _ ⦃hw : Hardware⦄ (pt old : ℕ) where
  -- `while (--page >= old_page)` from page `old + done` down.
  unfoldable pub rollback : (done : ℕ) → Memory → Memory
  rollback zero m = m
  rollback (suc k) m = rollback k (release_page pt (old + k) m)

  abbrev pub undo : (done : ℕ) → Memory → Bool × Memory
  undo done m = (false, rollback done m)

  -- `for (page = old_page; page < new_page; page++)`, with `done` pages behind and `left` ahead.
  unfoldable pub grow : (left done : ℕ) → Memory → Bool × Memory
  grow zero done m = (true, m)
  grow (suc left) done m =
      let (frame, m₁) = frame_alloc m in
      elim frame [
        | none ↦ undo done m₁
        | some pfn ↦
            let (mapped, m₂) = memory_map_page pt (pos (old + done)) (pos pfn) prot_rw m₁ in
            let rest = grow left (done + 1) m₂ in
            if mapped then rest else undo done (frame_free (pos pfn) m₂)
      ]
