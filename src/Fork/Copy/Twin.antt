-- ===== src/Fork/Copy/Twin.antt =====
-- Where ProcessCopyRegion1 ends: with a twin of the parent's region 1, or with every frame that it
-- took given back.
use yalnix.Base.{ℕ, ◌<◌, ◌≡◌, sym, ap, ◌∙◌, ◌≢◌, ◌⊎◌, inl, inr, true, false, arith}
use yalnix.Hardware.{Hardware}
use yalnix.Memory.{Memory, set_pte}
use yalnix.Memory.Isolation.{IsIsolated}
use yalnix.Fork.{scratch_page}
use yalnix.Fork.Copy.{Landed, InPage}

module _ ⦃hw : Hardware⦄ where
  -- The memory without the scratch page's entry.
  abbrev pub hide : Memory → Memory
  hide n = record n {
    tables =
        set_pte n.tables n.kernel_pt scratch_page
          (record { valid = false; prot = hw.prot_none; pfn = 0 });
  }

  module _ (dst src : ℕ) (from : ℕ → ℕ) (m : Memory) (live : dst ≢ 0) (apart : dst ≢ src)
      (not_kernel : dst ≢ m.kernel_pt) (user : src ≢ m.kernel_pt) where
    abbrev Entry : (i f : ℕ) (n o : Memory) (t j : ℕ) → Type 0
    Entry i f n o t j =
        ((t ≡ dst) × (j ≡ i) × (((hide o).tables t j).pfn ≡ f))
        ⊎ ((hide o).tables t j ≡ (hide n).tables t j)

    hide-cases :
        (i f : ℕ) (n o : Memory)
        → n.kernel_pt ≢ dst
        → Landed dst src from m live apart not_kernel user i f n o
        → (t j : ℕ) → Entry i f n o t j
    hide-cases i f n o other p t j = elim (where_is t j) [
      | inl here ↦ inl (here.0, here.1, ground (arith, here, p.at_page, other, p.kernel))
      | inr (inl scratch) ↦ inr (ground (arith, scratch, p.kernel))
      | inr (inr (a, b)) ↦ inr (ground (arith, p.rest t j a b, p.kernel))
    ]
      where
        where_is :
            (t j : ℕ)
            → ((t ≡ dst) × (j ≡ i))
              ⊎ ((t ≡ n.kernel_pt) × (j ≡ scratch_page))
              ⊎ (((t ≢ dst) ⊎ (j ≢ i)) × ((t ≢ n.kernel_pt) ⊎ (j ≢ scratch_page)))
        where_is t j = ground arith

    -- An entry of the new memory is the one at the page just copied, or one of the old memory's.
    old_held :
        (n o : Memory) (t j : ℕ)
        → IsIsolated (hide n)
        → ((hide o).tables t j ≡ (hide n).tables t j)
        → ((hide o).tables t j).valid ≡ true
        → (((hide o).tables t j).pfn < n.frame_count)
          × (n.allocated ((hide o).tables t j).pfn ≡ true)
    old_held n o t j v e w =
        let valid : ((hide n).tables t j).valid ≡ true = sym (ap (λ x. x.valid) e) ∙ w in
        rw e (v.held t j valid)

    pub put-hide :
        (i f : ℕ) (n o : Memory)
        → n.kernel_pt ≢ dst
        → f < n.frame_count
        → n.allocated f ≡ false
        → IsIsolated (hide n)
        → Landed dst src from m live apart not_kernel user i f n o
        → IsIsolated (hide o)
    put-hide i f n o other inside free v p = record {
      held = λ t j w. elim (hide-cases i f n o other p t j) [
        | inl e ↦ ground (arith, e.2, p.frames f, p.count, inside)
        | inr e ↦
            let h = old_held n o t j v e w in (rw p.count h.0, p.frames _ ∙ ground (arith, h.1))
      ];
      apart = λ t j u l w x e. elim (hide-cases i f n o other p t j) [
        | inl a ↦ elim (hide-cases i f n o other p u l) [
          | inl b ↦ ground (arith, a, b)
          | inr b ↦ absurd (ground (arith, a.2, old_held n o u l v b x, e, free))
        ]
        | inr a ↦ elim (hide-cases i f n o other p u l) [
          | inl b ↦ absurd (ground (arith, b.2, old_held n o t j v a w, e, free))
          | inr b ↦
              v.apart t j u l (sym (ap (λ y. y.valid) a) ∙ w) (sym (ap (λ y. y.valid) b) ∙ x)
                (sym (ap (λ y. y.pfn) a) ∙ e ∙ ap (λ y. y.pfn) b)
        ]
      ];
    }

  -- The child's table `dst` maps what the parent's table `src` does, with the same protection, at
  -- frames that were free, and the child's pages hold what the parent's do. No other entry maps
  -- anything else than before, no frame was given back, and no two entries share a frame.
  pub record Twin (dst src : ℕ) (from : ℕ → ℕ) (m : Memory) (to : ℕ → ℕ) (n : Memory) : Type 0 where
    pub mapped :
        (j : ℕ)
        → j < hw.max_pt_len
        → (m.tables src j).valid ≡ true
        → ((n.tables dst j).valid ≡ true)
          × ((n.tables dst j).prot ≡ (m.tables src j).prot)
          × (m.allocated (n.tables dst j).pfn ≡ false)
          × ((n.tables dst j).pfn < m.frame_count)
    pub unmapped :
        (j : ℕ)
        → j < hw.max_pt_len
        → (m.tables src j).valid ≡ false
        → (n.tables dst j).valid ≡ false
    pub contents :
        (j a : ℕ) → j < hw.max_pt_len → (m.tables src j).valid ≡ true → InPage j a → to a ≡ from a
    pub others :
        (t j : ℕ) → t ≢ dst → (t ≢ m.kernel_pt) ⊎ (j ≢ scratch_page) → n.tables t j ≡ m.tables t j
    pub scratch : (n.tables m.kernel_pt scratch_page).valid ≡ false
    pub kept : (p : ℕ) → m.allocated p ≡ true → n.allocated p ≡ true
    pub kernel : n.kernel_pt ≡ m.kernel_pt
    pub isolated : IsIsolated n

  -- The child's table is empty again, and the same frames are in use as before. Unless no frame was
  -- free to begin with, the scratch page is left behind, mapped to a frame that is free.
  pub record GivenBack (dst : ℕ) (m n : Memory) : Type 0 where
    pub frames : (p : ℕ) → n.allocated p ≡ m.allocated p
    pub count : n.frame_count ≡ m.frame_count
    pub cleared : (j : ℕ) → j < hw.max_pt_len → (n.tables dst j).valid ≡ false
    pub others :
        (t j : ℕ) → t ≢ dst → (t ≢ m.kernel_pt) ⊎ (j ≢ scratch_page) → n.tables t j ≡ m.tables t j
    pub scratch :
        ((n.tables m.kernel_pt scratch_page ≡ m.tables m.kernel_pt scratch_page)
          × ((p : ℕ) → p < m.frame_count → m.allocated p ≡ true))
        ⊎ (((n.tables m.kernel_pt scratch_page).valid ≡ true)
            × (n.allocated (n.tables m.kernel_pt scratch_page).pfn ≡ false))
