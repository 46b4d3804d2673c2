-- ===== src/Memory.antt =====
-- src/memory.c: the frame table and the page tables. Page tables lie at addresses, 0 is NULL, and
-- `tables` holds their entries. `int` results ERROR and SUCCESS of MemoryMapPage are `false` and
-- `true`, and ERROR of FrameAlloc is `none`. The state holds src/kernelbrk.c's two static
-- variables as well, and `flushes` is what was written to REG_TLB_FLUSH, latest first.
pub mod Frames
pub mod Short
pub mod Page
pub mod Grow
pub mod Release
pub mod Isolation
pub mod Agree
use yalnix.Base.{
  ℕ, zero, suc, ◌+◌, ◌*◌, ◌/◌, Bool, true, false, ◌&&◌, ◌||◌, Option, none, some, List, [], ◌∷◌,
  ◌==◌, leb, ltb, if◌then◌else◌, update, ℤ, pos, is_neg, to_ℕ,
}
use yalnix.Hardware.{Hardware, page_size, address_of}

pub record Pte : Type 0 where
  pub valid : Bool
  pub prot : ℕ
  pub pfn : ℕ

pub record Memory : Type 0 where
  pub frame_count : ℕ
  pub allocated : ℕ → Bool
  pub tables : ℕ → ℕ → Pte
  pub kernel_pt : ℕ
  pub vm_enabled : Bool
  pub flushes : List ℕ
  pub kernel_brk_page : ℕ
  pub highest_pre_vm_brk_page : ℕ
  pub ptbr0 : ℕ
  pub ptlr0 : ℕ
  pub ptbr1 : ℕ
  pub ptlr1 : ℕ

-- What `calloc` leaves in a page table.
abbrev pub zero_pte : Pte
zero_pte = record { valid = false; prot = 0; pfn = 0 }

abbrev pub with_flushes : List ℕ → Memory → Memory
with_flushes fs m = record m { flushes = fs }

-- WriteRegister(REG_TLB_FLUSH, v)
abbrev pub write_register_flush : ℕ → Memory → Memory
write_register_flush v m = with_flushes (v ∷ m.flushes) m

abbrev pub set_pte : (ℕ → ℕ → Pte) → ℕ → ℕ → Pte → ℕ → ℕ → Pte
set_pte tables pt i e = update tables pt (update (tables pt) i e)

-- The loop of FrameAlloc over the `left` frames from `pfn` on.
unfoldable pub frame_scan : ℕ → ℕ → (ℕ → Bool) → Option ℕ
frame_scan zero pfn allocated = none
frame_scan (suc left) pfn allocated =
    if allocated pfn then frame_scan left (pfn + 1) allocated else some pfn

abbrev took : Memory → Option ℕ → Option ℕ × Memory
took m none = (none, m)
took m (some pfn) = (some pfn, record m { allocated = update m.allocated pfn true })

unfoldable pub frame_alloc : Memory → Option ℕ × Memory
frame_alloc m = took m (frame_scan m.frame_count 0 m.allocated)

unfoldable pub frame_free : ℤ → Memory → Memory
frame_free pfn m =
    if is_neg pfn || leb m.frame_count (to_ℕ pfn)
    then m
    else record m { allocated = update m.allocated (to_ℕ pfn) false }

pub frame_is_allocated : ℤ → Memory → Bool
frame_is_allocated pfn m =
    if is_neg pfn || leb m.frame_count (to_ℕ pfn) then false else m.allocated (to_ℕ pfn)

-- The zeroed table that `calloc` returns at `fresh`, or a panic where it returns NULL.
unfoldable pub memory_alloc_page_table : (fresh : ℕ) → Memory → Option Memory
memory_alloc_page_table fresh m =
    if fresh == 0 then none else some (record m { tables = update m.tables fresh (λ _. zero_pte) })

module _ ⦃hw : Hardware⦄ where
  -- The flush of one page, when the MMU is on.
  abbrev pub flush_page : ℕ → ℕ → Memory → Memory
  flush_page pt i m = record m {
    flushes =
        if m.vm_enabled
        then (if pt == m.kernel_pt then address_of i else hw.vmem_1_base + address_of i) ∷ m.flushes
        else m.flushes;
  }

  unfoldable pub memory_map_page : (pt : ℕ) (index pfn : ℤ) (prot : ℕ) → Memory → Bool × Memory
  memory_map_page pt index pfn prot m =
      if pt == 0 || is_neg index || leb hw.max_pt_len (to_ℕ index) || is_neg pfn
      then (false, m)
      else (
        true,
        flush_page pt (to_ℕ index) (record m {
          tables =
              set_pte m.tables pt (to_ℕ index)
                (record { valid = true; prot = prot; pfn = to_ℕ pfn });
        }),
      )

  unfoldable pub memory_unmap_page : (pt : ℕ) (index : ℤ) → Memory → Memory
  memory_unmap_page pt index m =
      if pt == 0 || is_neg index || leb hw.max_pt_len (to_ℕ index)
      then m
      else flush_page pt (to_ℕ index) (record m {
        tables =
            set_pte m.tables pt (to_ℕ index)
              (record { valid = false; prot = hw.prot_none; pfn = 0 });
      })

  -- The body of several loops: give back the frame of an entry, and clear the entry.
  abbrev pub release_page : (pt i : ℕ) → Memory → Memory
  release_page pt i m = memory_unmap_page pt (pos i) (frame_free (pos (m.tables pt i).pfn) m)

  -- `if (pt[i].valid) { FrameFree(pt[i].pfn); MemoryUnmapPage(pt, i); }` for `left` pages from `i`.
  unfoldable pub release_valid : ℕ → (pt i : ℕ) → Memory → Memory
  release_valid zero pt i m = m
  release_valid (suc left) pt i m =
      release_valid left pt (i + 1) (if (m.tables pt i).valid then release_page pt i m else m)

  unfoldable pub memory_free_page_table_frames : ℕ → Memory → Memory
  memory_free_page_table_frames pt m =
      if pt == 0
      then m
      else (let freed = release_valid hw.max_pt_len pt 0 m in
          with_flushes (if freed.vm_enabled then hw.tlb_flush_1 ∷ freed.flushes else freed.flushes)
            freed)

  -- Which page tables the MMU walks.
  unfoldable pub memory_install_page_tables : (region1_pt : ℕ) → Memory → Memory
  memory_install_page_tables region1_pt m = record m {
    ptbr0 = m.kernel_pt;
    ptlr0 = hw.max_pt_len;
    ptbr1 = region1_pt;
    ptlr1 = hw.max_pt_len;
  }
