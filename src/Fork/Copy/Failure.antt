-- ===== src/Fork/Copy/Failure.antt =====
-- A copy of ProcessCopyRegion1 that runs out of frames: what is given back, and what is left.
use yalnix.Base.{
  ℕ, ◌≤◌, ◌<◌, ◌≡◌, refl, sym, ap, ◌∙◌, ◌≢◌, ◌⊎◌, inl, inr, true, false, none, arith, Bool-cases,
}
use yalnix.Hardware.{Hardware}
use yalnix.Memory.{Memory, frame_alloc, memory_free_page_table_frames}
use yalnix.Memory.Frames.{frame_alloc-Found, Found}
use yalnix.Memory.Agree.{
  Agrees, memory_free_page_table_frames-Agrees, memory_free_page_table_frames-others,
}
use yalnix.Memory.Release.{Released, memory_free_page_table_frames-Released}
use yalnix.Memory.Isolation.{IsIsolated}
use yalnix.Fork.{scratch_page}
use yalnix.Fork.Copy.{Copied}
use yalnix.Fork.Copy.Twin.{hide, GivenBack}

full-used :
    (m : Memory) → frame_alloc m ≡ (none, m) → (p : ℕ) → p < m.frame_count → m.allocated p ≡ true
full-used m full p lt =
    let found : Found m.allocated 0 m.frame_count (none) = rw full at (frame_alloc-Found m).0 in
    found p (omega arith) lt

module _ ⦃hw : Hardware⦄ (dst src : ℕ) (from : ℕ → ℕ) (m : Memory) (live : dst ≢ 0)
    (apart : dst ≢ src) (not_kernel : dst ≢ m.kernel_pt) (user : src ≢ m.kernel_pt) where
  -- What is freed of a copy that has come to page `i`.
  module _ (i : ℕ) (to : ℕ → ℕ) (x : Memory) (lt : i < hw.max_pt_len)
      (blank : (j : ℕ) → (m.tables dst j).valid ≡ false) (c : Copied dst src from i m to x)
      (v : IsIsolated (hide x)) where
    agree : Agrees dst (hide x) x
    agree = record {
      table = λ j. let k = c.kernel in ground (arith, not_kernel, k);
      frames = λ p. refl;
      count = refl;
    }

    freed :
        Agrees dst
          (memory_free_page_table_frames dst (hide x))
          (memory_free_page_table_frames dst x)
    freed = memory_free_page_table_frames-Agrees dst (hide x) x agree

    release : Released dst 0 hw.max_pt_len (hide x) (memory_free_page_table_frames dst (hide x))
    release = (memory_free_page_table_frames-Released dst live (hide x) v).0

    frame_freed :
        (j : ℕ)
        → j < hw.max_pt_len
        → (x.tables dst j).valid ≡ true
        → (memory_free_page_table_frames dst x).allocated (x.tables dst j).pfn ≡ false
    frame_freed j b w =
        let e = agree.table j in
        let f = release.freed j (omega arith) b (sym (ap (λ y. y.valid) e) ∙ w) in
        freed.frames _
        ∙ ap (memory_free_page_table_frames dst (hide x)).allocated (ap (λ y. y.pfn) e)
        ∙ f

    was_free : (j : ℕ) → (x.tables dst j).valid ≡ true → m.allocated (x.tables dst j).pfn ≡ false
    was_free j w = elim (side j) [
      | inl a ↦ elim (Bool-cases (m.tables src j).valid) [
        | inl t ↦ (c.mapped j a t).2
        | inr f ↦ absurd (ground (arith, c.unmapped j a f, w))
      ]
      | inr b ↦ absurd (ground (arith, c.ahead j b, blank j, w))
    ]
      where
        side : (j : ℕ) → (j < i) ⊎ (i ≤ j)
        side j = omega arith

    kept_used :
        (p : ℕ) → m.allocated p ≡ true → (memory_free_page_table_frames dst x).allocated p ≡ true
    kept_used p t =
        freed.frames p
        ∙ release.spared p (λ j a b w e.
          let same = agree.table j in
          let f = was_free j (ap (λ y. y.valid) same ∙ w) in ground (arith, same, f, e, t))
        ∙ c.kept p t

    kept_free :
        (p : ℕ) → m.allocated p ≡ false → (memory_free_page_table_frames dst x).allocated p ≡ false
    kept_free p f = elim (Bool-cases ((memory_free_page_table_frames dst x).allocated p)) [
      | inl t ↦
          freed.frames p
          ∙ release.down p (
              c.spared p
                (λ j a w e. let g = frame_freed j (omega arith) w in ground (arith, g, e, t))
              ∙ f)
      | inr g ↦ g
    ]

    freed_scratch :
        ((x.tables m.kernel_pt scratch_page ≡ m.tables m.kernel_pt scratch_page)
            × ((p : ℕ) → x.allocated p ≡ m.allocated p))
          ⊎ ((j : ℕ) × (j < i)
              × ((x.tables dst j).valid ≡ true)
              × ((x.tables m.kernel_pt scratch_page).valid ≡ true)
              × ((x.tables m.kernel_pt scratch_page).pfn ≡ (x.tables dst j).pfn))
        → frame_alloc x ≡ (none, x)
        → (((memory_free_page_table_frames dst x).tables m.kernel_pt scratch_page
              ≡ m.tables m.kernel_pt scratch_page)
            × ((p : ℕ) → p < m.frame_count → m.allocated p ≡ true))
          ⊎ ((((memory_free_page_table_frames dst x).tables m.kernel_pt scratch_page).valid ≡ true)
              × ((memory_free_page_table_frames dst x).allocated
                    ((memory_free_page_table_frames dst x).tables m.kernel_pt scratch_page).pfn
                  ≡ false))
    freed_scratch (inl a) full =
        let e =
          memory_free_page_table_frames-others dst x m.kernel_pt scratch_page
            (λ q. not_kernel (sym q)) in
        inl (e ∙ a.0, λ p b. sym (a.1 p) ∙ full-used x full p (rw c.count b))
    freed_scratch (inr (j, b, w, s, q)) full =
        let e =
          memory_free_page_table_frames-others dst x m.kernel_pt scratch_page
            (λ q. not_kernel (sym q)) in
        inr (
          ap (λ y. y.valid) e ∙ s,
          ap (memory_free_page_table_frames dst x).allocated (ap (λ y. y.pfn) e ∙ q)
              ∙ frame_freed j (omega arith) w,
        )

    -- No frame is left at page `i`.
    pub failed-GivenBack :
        frame_alloc x ≡ (none, x) → GivenBack dst m (memory_free_page_table_frames dst x)
    failed-GivenBack full = record {
      frames = λ p. elim (Bool-cases (m.allocated p)) [
        | inl t ↦ kept_used p t ∙ sym t
        | inr f ↦ kept_free p f ∙ sym f
      ];
      count = freed.count ∙ release.count ∙ c.count;
      cleared = λ j b. ap (λ y. y.valid) (freed.table j) ∙ release.cleared j (omega arith) b;
      others = λ t j y z. memory_free_page_table_frames-others dst x t j y ∙ c.others t j y z;
      scratch = freed_scratch c.scratch full;
    }
