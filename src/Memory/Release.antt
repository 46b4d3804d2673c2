-- ===== src/Memory/Release.antt =====
-- MemoryFreePageTableFrames, and the loops that give back the frames of a range of pages.
use yalnix.Base.{
  ℕ, zero, suc, ◌+◌, ◌≤◌, ◌<◌, ◌≡◌, refl, ◌≢◌, ◌⊎◌, ◌∙◌, inl, inr, true, false, List, arith, ◌==◌,
  Bool-cases,
}
use yalnix.Hardware.{Hardware}
use yalnix.Memory.{
  Memory, frame_free, memory_unmap_page, release_page, release_valid, memory_free_page_table_frames,
  with_flushes,
}
use yalnix.Memory.Isolation.{IsIsolated, release-IsIsolated}

-- From `m` to `n` the pages `lo` to `hi` of the table `pt` were unmapped, and their frames and no
-- others given back.
pub record Released (pt lo hi : ℕ) (m n : Memory) : Type 0 where
  pub cleared : (j : ℕ) → lo ≤ j → j < hi → (n.tables pt j).valid ≡ false
  pub below : (j : ℕ) → j < lo → n.tables pt j ≡ m.tables pt j
  pub above : (j : ℕ) → hi ≤ j → n.tables pt j ≡ m.tables pt j
  pub others : (t j : ℕ) → t ≢ pt → n.tables t j ≡ m.tables t j
  pub freed :
      (j : ℕ)
      → lo ≤ j
      → j < hi
      → (m.tables pt j).valid ≡ true
      → n.allocated (m.tables pt j).pfn ≡ false
  pub spared :
      (p : ℕ)
      → ((j : ℕ) → lo ≤ j → j < hi → (m.tables pt j).valid ≡ true → (m.tables pt j).pfn ≢ p)
      → n.allocated p ≡ m.allocated p
  pub down : (p : ℕ) → m.allocated p ≡ false → n.allocated p ≡ false
  pub count : n.frame_count ≡ m.frame_count
  pub kernel : n.kernel_pt ≡ m.kernel_pt
  pub mmu : n.vm_enabled ≡ m.vm_enabled

pub Released-refl : (pt lo : ℕ) (m : Memory) → Released pt lo lo m m
Released-refl pt lo m = record {
  cleared = λ j a b. absurd (omega arith);
  below = λ j a. refl;
  above = λ j a. refl;
  others = λ t j a. refl;
  freed = λ j a b. absurd (omega arith);
  spared = λ p a. refl;
  down = λ p a. a;
  count = refl;
  kernel = refl;
  mmu = refl;
}

Released-trans :
    {pt lo mid hi : ℕ} {m n o : Memory}
    → lo ≤ mid
    → mid ≤ hi
    → Released pt lo mid m n
    → Released pt mid hi n o
    → Released pt lo hi m o
Released-trans {pt} {lo} {mid} {hi} {m} {n} {o} l h r s = record {
  cleared = λ j a b. elim (side j) [
    | inl early ↦ ground (arith, s.below j early, r.cleared j a early)
    | inr late ↦ s.cleared j late b
  ];
  below = λ j a. s.below j (omega arith) ∙ r.below j a;
  above = λ j a. s.above j a ∙ r.above j (omega arith);
  others = λ t j a. s.others t j a ∙ r.others t j a;
  freed = λ j a b v. elim (side j) [
    | inl early ↦ s.down _ (r.freed j a early v)
    | inr late ↦ ground (arith, r.above j late, s.freed j late b)
  ];
  spared = λ p a.
      s.spared p (λ j c d v. ground (arith, r.above j c, a j (omega arith) d))
      ∙ r.spared p (λ j c d. a j c (omega arith));
  down = λ p a. s.down p (r.down p a);
  count = s.count ∙ r.count;
  kernel = s.kernel ∙ r.kernel;
  mmu = s.mmu ∙ r.mmu;
}
  where
    side : (j : ℕ) → (j < mid) ⊎ (mid ≤ j)
    side j = omega arith

pub flush-Released :
    {pt lo hi : ℕ} {m n : Memory} (v : List ℕ)
    → Released pt lo hi m n
    → Released pt lo hi m (with_flushes v n)
flush-Released v r = record {
  cleared = r.cleared;
  below = r.below;
  above = r.above;
  others = r.others;
  freed = r.freed;
  spared = r.spared;
  down = r.down;
  count = r.count;
  kernel = r.kernel;
  mmu = r.mmu;
}

pub flush-IsIsolated : {m : Memory} (v : List ℕ) → IsIsolated m → IsIsolated (with_flushes v m)
flush-IsIsolated v i = record { held = i.held; apart = i.apart }

module _ ⦃hw : Hardware⦄ (pt : ℕ) (nz : pt ≢ 0) where
  pub release_page-Released :
      (i : ℕ) (m : Memory)
      → i < hw.max_pt_len
      → (m.tables pt i).valid ≡ true
      → (m.tables pt i).pfn < m.frame_count
      → Released pt i (i + 1) m (release_page pt i m)
  unfolding memory_unmap_page frame_free
  release_page-Released i m lt v inside = record {
    cleared = λ j a b. ground arith;
    below = λ j a. ground arith;
    above = λ j a. ground arith;
    others = λ t j a. ground arith;
    freed = λ j a b w. ground arith;
    spared = λ p a. ground (arith, a i);
    down = λ p a. ground arith;
    count = ground arith;
    kernel = ground arith;
    mmu = ground arith;
  }

  skip-Released : (i : ℕ) (m : Memory) → (m.tables pt i).valid ≡ false → Released pt i (i + 1) m m
  skip-Released i m v = record {
    cleared = λ j a b. let e : j ≡ i = omega arith in rw e v;
    below = λ j a. refl;
    above = λ j a. refl;
    others = λ t j a. refl;
    freed = λ j a b w. let e : j ≡ i = omega arith in ground arith;
    spared = λ p a. refl;
    down = λ p a. a;
    count = refl;
    kernel = refl;
    mmu = refl;
  }

  pub release_valid-Released :
      (left i hi : ℕ) (m : Memory)
      → i + left ≡ hi
      → hi ≤ hw.max_pt_len
      → IsIsolated m
      → Released pt i hi m (release_valid left pt i m) × IsIsolated (release_valid left pt i m)
  unfolding release_valid
  release_valid-Released zero i hi m e lt v =
      let same : i ≡ hi = omega arith in rw same (Released-refl pt hi m, v)
  release_valid-Released (suc left) i hi m e lt v = elim (Bool-cases (m.tables pt i).valid) [
    | inl used ↦
        let once = release_page-Released i m (omega arith) used (v.held pt i used).0 in
        let (rest, w) =
          release_valid-Released left (i + 1) hi (release_page pt i m) (omega arith) lt
            (release-IsIsolated pt i nz (omega arith) used v) in
        rw used (Released-trans (omega arith) (omega arith) once rest, w)
    | inr free ↦
        let (rest, w) = release_valid-Released left (i + 1) hi m (omega arith) lt v in
        rw free (Released-trans (omega arith) (omega arith) (skip-Released i m free) rest, w)
  ]

  -- On a memory where no two entries share a frame, MemoryFreePageTableFrames leaves no valid entry
  -- in the table, gives back the frames that it mapped and no others, changes no other table, and
  -- keeps frames unshared.
  pub memory_free_page_table_frames-Released :
      (m : Memory)
      → IsIsolated m
      → Released pt 0 hw.max_pt_len m (memory_free_page_table_frames pt m)
        × IsIsolated (memory_free_page_table_frames pt m)
  unfolding memory_free_page_table_frames
  memory_free_page_table_frames-Released m v =
      let (r, w) =
        release_valid-Released hw.max_pt_len 0 hw.max_pt_len m (omega arith) (omega arith) v in
      let live : (pt == 0) ≡ false = ground arith in
      rw live (flush-Released _ r, flush-IsIsolated _ w)
