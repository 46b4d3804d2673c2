-- ===== src/Memory/Frames.antt =====
-- FrameAlloc and FrameFree.
use yalnix.Base.{
  ℕ, zero, suc, ◌+◌, ◌≤◌, ◌<◌, ◌≡◌, refl, ◌⊎◌, inl, inr, Bool, true, false, Option, none, some,
  arith, update, pos, Bool-cases, Option-cases,
}
use yalnix.Memory.{Memory, frame_scan, frame_alloc, frame_free, took}

-- What a search from `pfn` over `left` frames finds.
abbrev pub Found : (ℕ → Bool) → ℕ → ℕ → Option ℕ → Type 0
Found allocated lo hi none = (p : ℕ) → lo ≤ p → p < hi → allocated p ≡ true
Found allocated lo hi (some f) =
    (lo ≤ f) × (f < hi) × (allocated f ≡ false) × ((p : ℕ) → lo ≤ p → p < f → allocated p ≡ true)

frame_scan-Found :
    (left pfn hi : ℕ) (allocated : ℕ → Bool)
    → pfn + left ≡ hi
    → Found allocated pfn hi (frame_scan left pfn allocated)
unfolding frame_scan
frame_scan-Found zero pfn hi allocated e = λ p lo lt. absurd (omega arith)
frame_scan-Found (suc left) pfn hi allocated e = elim (Bool-cases (allocated pfn)) [
  | inl used ↦ rw used (
      extend (frame_scan left (pfn + 1) allocated) used
        (frame_scan-Found left (pfn + 1) hi allocated (omega arith)))
  | inr free ↦ rw free (omega arith, omega arith, free, λ p lo lt. absurd (omega arith))
]
  where
    here : (p : ℕ) → pfn ≤ p → (p ≡ pfn) ⊎ (pfn + 1 ≤ p)
    here p h = ground arith

    extend :
        (r : Option ℕ)
        → allocated pfn ≡ true
        → Found allocated (pfn + 1) hi r
        → Found allocated pfn hi r
    extend none used rest =
        λ p lo lt. elim (here p lo) [ inl eq ↦ rw eq used | inr more ↦ rest p more lt ]
    extend (some f) used rest = (
      omega arith,
      rest.1,
      rest.2,
      λ p lo lt. elim (here p lo) [ inl eq ↦ rw eq used | inr more ↦ rest.3 p more lt ],
    )

-- FrameAlloc returns the lowest free frame and marks that one only, or fails, with every frame in
-- use and nothing changed.
pub frame_alloc-Found :
    (m : Memory)
    → Found m.allocated 0 m.frame_count (frame_alloc m).0
      × ((frame_alloc m).1 ≡ elim (frame_alloc m).0 [
        | none ↦ m
        | some f ↦ record m { allocated = update m.allocated f true }
      ])
unfolding frame_alloc
frame_alloc-Found m =
    go (frame_scan m.frame_count 0 m.allocated)
      (frame_scan-Found m.frame_count 0 m.frame_count m.allocated (omega arith))
  where
    go :
        (r : Option ℕ)
        → Found m.allocated 0 m.frame_count r
        → Found m.allocated 0 m.frame_count (took m r).0
          × ((took m r).1 ≡ elim (took m r).0 [
            | none ↦ m
            | some f ↦ record m { allocated = update m.allocated f true }
          ])
    go none h = (h, refl)
    go (some f) h = (h, refl)

abbrev pub mark : Memory → ℕ → Memory
mark m f = record m { allocated = update m.allocated f true }

-- The two outcomes of FrameAlloc, for its callers' proofs.
pub frame_alloc-cases :
    (m : Memory)
    → (frame_alloc m ≡ (none, m))
      ⊎ ((f : ℕ) × (frame_alloc m ≡ (some f, mark m f))
          × (f < m.frame_count)
          × (m.allocated f ≡ false))
unfolding frame_alloc
frame_alloc-cases m = elim (Option-cases (frame_scan m.frame_count 0 m.allocated)) [
  | inl e ↦ inl (rw e)
  | inr (f, e) ↦
      let found : Found m.allocated 0 m.frame_count (some f) =
        rw e at (frame_scan-Found m.frame_count 0 m.frame_count m.allocated (omega arith)) in
      inr (f, rw e, found.1, found.2)
]

-- Giving back the frame that was just allocated restores the frame table.
pub free-mark :
    (m : Memory) (f : ℕ)
    → f < m.frame_count
    → m.allocated f ≡ false
    → (p : ℕ) → (frame_free (pos f) (mark m f)).allocated p ≡ m.allocated p
unfolding frame_free
free-mark m f lt was p = ground arith
