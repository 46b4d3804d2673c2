-- ===== src/Memory/Grow/Ledger.antt =====
-- Which frames a growing region has taken, page by page.
use yalnix.Base.{ℕ, suc, ◌≤◌, ◌<◌, ◌≡◌, refl, sym, ◌≢◌, ◌⊎◌, inl, inr, true, false, arith, pos, ◌∙◌}
use yalnix.Hardware.{Hardware}
use yalnix.Memory.{Memory, Pte, frame_free, memory_map_page, memory_unmap_page, release_page}
use yalnix.Memory.Frames.{mark}
use yalnix.Memory.Isolation.{IsIsolated}

-- The same entry, or no entry in both.
abbrev pub SameEntry : Pte → Pte → Type 0
SameEntry e e' = (e' ≡ e) ⊎ ((e'.valid ≡ false) × (e.valid ≡ false))

-- From `m` to `n` the pages `lo` to `hi` of the table `pt`, unmapped before, got frames that were
-- free, with `prot`; nothing else changed.
pub record Grown (pt lo hi prot : ℕ) (m n : Memory) : Type 0 where
  pub was : (j : ℕ) → lo ≤ j → j < hi → (m.tables pt j).valid ≡ false
  pub mapped :
      (j : ℕ) → lo ≤ j → j < hi → ((n.tables pt j).valid ≡ true) × ((n.tables pt j).prot ≡ prot)
  pub fresh :
      (j : ℕ)
      → lo ≤ j
      → j < hi
      → (m.allocated (n.tables pt j).pfn ≡ false) × (n.allocated (n.tables pt j).pfn ≡ true)
  pub kept :
      (p : ℕ)
      → ((j : ℕ) → lo ≤ j → j < hi → (n.tables pt j).pfn ≢ p)
      → n.allocated p ≡ m.allocated p
  pub below : (j : ℕ) → j < lo → SameEntry (m.tables pt j) (n.tables pt j)
  pub above : (j : ℕ) → hi ≤ j → SameEntry (m.tables pt j) (n.tables pt j)
  pub others : (t j : ℕ) → t ≢ pt → n.tables t j ≡ m.tables t j
  pub count : n.frame_count ≡ m.frame_count
  pub kernel : n.kernel_pt ≡ m.kernel_pt
  pub mmu : n.vm_enabled ≡ m.vm_enabled
  pub brk : n.kernel_brk_page ≡ m.kernel_brk_page
  pub highest : n.highest_pre_vm_brk_page ≡ m.highest_pre_vm_brk_page

pub Grown-refl : (pt lo prot : ℕ) (m : Memory) → Grown pt lo lo prot m m
Grown-refl pt lo prot m = record {
  was = λ j a b. absurd (omega arith);
  mapped = λ j a b. absurd (omega arith);
  fresh = λ j a b. absurd (omega arith);
  kept = λ p a. refl;
  below = λ j a. inl refl;
  above = λ j a. inl refl;
  others = λ t j a. refl;
  count = refl;
  kernel = refl;
  mmu = refl;
  brk = refl;
  highest = refl;
}

module _ ⦃hw : Hardware⦄ {pt lo hi prot : ℕ} {m n : Memory} (nz : pt ≢ 0)
    (in_table : hi < hw.max_pt_len) (le : lo ≤ hi) where
  -- Mapping one more page, at a free frame.
  pub grow_page :
      (f : ℕ)
      → (m.tables pt hi).valid ≡ false
      → n.allocated f ≡ false
      → Grown pt lo hi prot m n
      → Grown pt lo (suc hi) prot m (memory_map_page pt (pos hi) (pos f) prot (mark n f)).1
  unfolding memory_map_page
  grow_page f empty free g = record {
    was = λ j a b. elim (side j b) [ inl lt ↦ g.was j a lt | inr e ↦ rw e empty ];
    mapped = λ j a b. ground (arith, g.mapped j a);
    fresh = λ j a b. elim (side j b) [
      | inl lt ↦ ground (arith, g.fresh j a lt)
      | inr e ↦ ground (arith, unseen)
    ];
    kept = λ p a.
        let ne : f ≢ p = ground (arith, a hi le (omega arith)) in
        let before = g.kept p (λ j c d. ground (arith, a j c (omega arith))) in ground arith;
    below = λ j a. ground (arith, g.below j a);
    above = λ j a. ground (arith, g.above j);
    others = λ t j a. ground (arith, g.others t j a);
    count = ground (arith, g.count);
    kernel = ground (arith, g.kernel);
    mmu = ground (arith, g.mmu);
    brk = ground (arith, g.brk);
    highest = ground (arith, g.highest);
  }
    where
      side : (j : ℕ) → j < suc hi → (j < hi) ⊎ (j ≡ hi)
      side j h = omega arith

      unseen : m.allocated f ≡ false
      unseen = sym (g.kept f (λ j a b. ground (arith, g.fresh j a b))) ∙ free

  -- Giving the last page back.
  pub ungrow_page :
      IsIsolated n → Grown pt lo (suc hi) prot m n → Grown pt lo hi prot m (release_page pt hi n)
  unfolding memory_unmap_page frame_free
  ungrow_page v g = record {
    was = λ j a b. g.was j a (omega arith);
    mapped = λ j a b. ground (arith, g.mapped j a (omega arith));
    fresh = λ j a b. ground (
      arith,
      g.fresh j a (omega arith),
      v.apart pt j pt hi (g.mapped j a (omega arith)).0 last.0,
    );
    kept = λ p a. elim (which p) [
      | inl e ↦ ground (arith, g.fresh hi le (omega arith), v.held pt hi last.0)
      | inr ne ↦ ground (arith, before p ne a)
    ];
    below = λ j a. ground (arith, g.below j a);
    above = λ j a. elim (from j a) [
      | inl e ↦ inr (ground arith, rw e (g.was hi le (omega arith)))
      | inr more ↦ ground (arith, g.above j more)
    ];
    others = λ t j a. ground (arith, g.others t j a);
    count = ground (arith, g.count);
    kernel = ground (arith, g.kernel);
    mmu = ground (arith, g.mmu);
    brk = ground (arith, g.brk);
    highest = ground (arith, g.highest);
  }
    where
      last : ((n.tables pt hi).valid ≡ true) × ((n.tables pt hi).prot ≡ prot)
      last = g.mapped hi le (omega arith)

      which : (p : ℕ) → ((n.tables pt hi).pfn ≡ p) ⊎ ((n.tables pt hi).pfn ≢ p)
      which p = ground arith

      from : (j : ℕ) → hi ≤ j → (j ≡ hi) ⊎ (suc hi ≤ j)
      from j h = omega arith

      to : (j : ℕ) → j < suc hi → (j < hi) ⊎ (j ≡ hi)
      to j h = omega arith

      before :
          (p : ℕ)
          → (n.tables pt hi).pfn ≢ p
          → ((j : ℕ) → lo ≤ j → j < hi → ((release_page pt hi n).tables pt j).pfn ≢ p)
          → n.allocated p ≡ m.allocated p
      before p ne a =
          g.kept p λ j c d. elim (to j d) [ inl lt ↦ ground (arith, a j c lt) | inr e ↦ rw e ne ]
