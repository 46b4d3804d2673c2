-- ===== src/Memory/Isolation.antt =====
-- No two page table entries share a frame, and every mapped frame is marked in use.
use yalnix.Base.{ℕ, ◌<◌, ◌≡◌, ◌≢◌, true, false, arith, ℤ, pos}
use yalnix.Hardware.{Hardware}
use yalnix.Memory.{Memory, frame_free, memory_map_page, memory_unmap_page, release_page}
use yalnix.Memory.Frames.{mark}

pub record IsIsolated (m : Memory) : Type 0 where
  pub held :
      (t i : ℕ)
      → (m.tables t i).valid ≡ true
      → ((m.tables t i).pfn < m.frame_count) × (m.allocated (m.tables t i).pfn ≡ true)
  pub apart :
      (t i u j : ℕ)
      → (m.tables t i).valid ≡ true
      → (m.tables u j).valid ≡ true
      → (m.tables t i).pfn ≡ (m.tables u j).pfn
      → (t ≡ u) × (i ≡ j)

-- A frame that no entry holds.
pub record IsFree (m : Memory) (f : ℕ) : Type 0 where
  pub in_range : f < m.frame_count
  pub unheld : (t i : ℕ) → (m.tables t i).valid ≡ true → (m.tables t i).pfn ≢ f
  pub marked : m.allocated f ≡ true

pub mark-IsIsolated : {m : Memory} (f : ℕ) → IsIsolated m → IsIsolated (mark m f)
mark-IsIsolated f v = record { held = λ t i h. ground (arith, v.held t i h); apart = v.apart }

pub mark-IsFree :
    {m : Memory} (f : ℕ)
    → IsIsolated m
    → f < m.frame_count
    → m.allocated f ≡ false
    → IsFree (mark m f) f
mark-IsFree f v h free = record {
  in_range = h;
  unheld = λ t i p e. ground (arith, v.held t i p);
  marked = ground arith;
}

module _ ⦃hw : Hardware⦄ where
  pub map-IsIsolated :
      {m : Memory} (pt : ℕ) (index : ℤ) (f prot : ℕ)
      → IsIsolated m
      → IsFree m f
      → IsIsolated (memory_map_page pt index (pos f) prot m).1
  unfolding memory_map_page
  map-IsIsolated {m} pt index f prot v free = record {
    held = λ t i h. ground (arith, v.held t i, free.in_range, free.marked);
    apart = λ t i u j h k e. ground (arith, v.apart t i u j, free.unheld t i, free.unheld u j);
  }

  -- Giving back the frame of a valid entry.
  pub release-IsIsolated :
      {m : Memory} (pt i : ℕ)
      → pt ≢ 0
      → i < hw.max_pt_len
      → (m.tables pt i).valid ≡ true
      → IsIsolated m
      → IsIsolated (release_page pt i m)
  unfolding memory_unmap_page frame_free
  release-IsIsolated {m} pt i nz lt valid v = record {
    held = λ t j h. ground (arith, v.held pt i valid, v.held t j, v.apart pt i t j);
    apart = λ t j u k h l e. ground (arith, v.apart t j u k);
  }
