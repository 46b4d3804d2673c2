-- ===== src/Memory/Agree.antt =====
-- MemoryFreePageTableFrames reads one page table and the frame table only, and writes no other page
-- table.
use yalnix.Base.{ℕ, zero, suc, ◌+◌, ◌≡◌, refl, ap, ◌∙◌, ◌≢◌, inl, inr, arith, ◌==◌, Bool-cases}
use yalnix.Hardware.{Hardware}
use yalnix.Memory.{
  Memory, frame_free, memory_unmap_page, release_page, release_valid, memory_free_page_table_frames,
}

-- The memories have the same table `pt`, and the same frames are in use.
pub record Agrees (pt : ℕ) (m n : Memory) : Type 0 where
  pub table : (j : ℕ) → n.tables pt j ≡ m.tables pt j
  pub frames : (p : ℕ) → n.allocated p ≡ m.allocated p
  pub count : n.frame_count ≡ m.frame_count

module _ ⦃hw : Hardware⦄ (pt : ℕ) where
  release_page-Agrees :
      (i : ℕ) (m n : Memory) → Agrees pt m n → Agrees pt (release_page pt i m) (release_page pt i n)
  unfolding memory_unmap_page frame_free
  release_page-Agrees i m n a = record {
    table = λ j. ground (arith, a.table i, a.table j);
    frames = λ p. ground (arith, a.frames p, a.table i, a.count);
    count = ground (arith, a.table i, a.count);
  }

  release_page-others :
      (i : ℕ) (m : Memory) (t j : ℕ) → t ≢ pt → (release_page pt i m).tables t j ≡ m.tables t j
  unfolding memory_unmap_page frame_free
  release_page-others i m t j other = ground arith

  release_valid-Agrees :
      (left i : ℕ) (m n : Memory)
      → Agrees pt m n
      → Agrees pt (release_valid left pt i m) (release_valid left pt i n)
  unfolding release_valid
  release_valid-Agrees zero i m n a = a
  release_valid-Agrees (suc left) i m n a =
      let same : (n.tables pt i).valid ≡ (m.tables pt i).valid = ap (λ e. e.valid) (a.table i) in
      rw same (elim (Bool-cases (m.tables pt i).valid) [
        | inl t ↦ rw t (release_valid-Agrees left (i + 1) _ _ (release_page-Agrees i m n a))
        | inr f ↦ rw f (release_valid-Agrees left (i + 1) m n a)
      ])

  release_valid-others :
      (left i : ℕ) (m : Memory) (t j : ℕ)
      → t ≢ pt
      → (release_valid left pt i m).tables t j ≡ m.tables t j
  unfolding release_valid
  release_valid-others zero i m t j other = refl
  release_valid-others (suc left) i m t j other = elim (Bool-cases (m.tables pt i).valid) [
    | inl v ↦
        rw (release_valid, v)
          (release_valid-others left (i + 1) _ t j other ∙ release_page-others i m t j other)
    | inr f ↦ rw (release_valid, f) (release_valid-others left (i + 1) m t j other)
  ]

  pub memory_free_page_table_frames-Agrees :
      (m n : Memory)
      → Agrees pt m n
      → Agrees pt (memory_free_page_table_frames pt m) (memory_free_page_table_frames pt n)
  unfolding memory_free_page_table_frames
  memory_free_page_table_frames-Agrees m n a = elim (Bool-cases (pt == 0)) [
    | inl null ↦ rw null a
    | inr live ↦
        let r = release_valid-Agrees hw.max_pt_len 0 m n a in
        rw live (record { table = r.table; frames = r.frames; count = r.count })
  ]

  pub memory_free_page_table_frames-others :
      (m : Memory) (t j : ℕ)
      → t ≢ pt
      → (memory_free_page_table_frames pt m).tables t j ≡ m.tables t j
  unfolding memory_free_page_table_frames
  memory_free_page_table_frames-others m t j other = elim (Bool-cases (pt == 0)) [
    | inl null ↦ rw null refl
    | inr live ↦ rw live (release_valid-others hw.max_pt_len 0 m t j other)
  ]
