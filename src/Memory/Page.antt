-- ===== src/Memory/Page.antt =====
-- MemoryMapPage and MemoryUnmapPage where their arguments are in range.
use yalnix.Base.{ℕ, ◌<◌, ◌≡◌, refl, ◌≢◌, true, false, arith, pos, leb, ◌==◌}
use yalnix.Hardware.{Hardware}
use yalnix.Memory.{Memory, set_pte, flush_page, memory_map_page, memory_unmap_page}

module _ ⦃hw : Hardware⦄ where
  abbrev pub with_entry : (pt i pfn prot : ℕ) → Memory → Memory
  with_entry pt i pfn prot m = flush_page pt i (record m {
    tables = set_pte m.tables pt i (record { valid = true; prot = prot; pfn = pfn });
  })

  abbrev pub without_entry : (pt i : ℕ) → Memory → Memory
  without_entry pt i m = flush_page pt i (record m {
    tables = set_pte m.tables pt i (record { valid = false; prot = hw.prot_none; pfn = 0 });
  })

  pub memory_map_page-with_entry :
      (pt i pfn prot : ℕ) (m : Memory)
      → pt ≢ 0
      → i < hw.max_pt_len
      → memory_map_page pt (pos i) (pos pfn) prot m ≡ (true, with_entry pt i pfn prot m)
  unfolding memory_map_page
  memory_map_page-with_entry pt i pfn prot m live lt =
      let a : (pt == 0) ≡ false = ground (arith, live) in
      let b : leb hw.max_pt_len i ≡ false = ground arith in rw (a, b) refl

  pub memory_unmap_page-without_entry :
      (pt i : ℕ) (m : Memory)
      → pt ≢ 0
      → i < hw.max_pt_len
      → memory_unmap_page pt (pos i) m ≡ without_entry pt i m
  unfolding memory_unmap_page
  memory_unmap_page-without_entry pt i m live lt =
      let a : (pt == 0) ≡ false = ground (arith, live) in
      let b : leb hw.max_pt_len i ≡ false = ground arith in rw (a, b) refl
