-- ===== src/Loader/Protect.antt =====
-- The loop of LoadProgram (src/template.c) that protects the text.
use yalnix.Base.{ℕ, zero, suc, ◌+◌, ◌≤◌, ◌<◌, ◌≡◌, refl, ◌∙◌, ap, ◌≢◌, ◌⊎◌, inl, inr, arith, sym}
use yalnix.Hardware.{Hardware, prot_rx}
use yalnix.Memory.{Memory, Pte, set_pte}
use yalnix.Memory.Isolation.{IsIsolated}
use yalnix.Loader.{protect}

module _ ⦃hw : Hardware⦄ where
  -- From `m` to `n` the pages `lo` to `hi` of the table `pt` got the protection of text.
  pub record Protected (pt lo hi : ℕ) (m n : Memory) : Type 0 where
    pub inside :
        (j : ℕ) → lo ≤ j → j < hi → n.tables pt j ≡ record (m.tables pt j) { prot = prot_rx }
    pub outside : (j : ℕ) → (j < lo) ⊎ (hi ≤ j) → n.tables pt j ≡ m.tables pt j
    pub others : (t j : ℕ) → t ≢ pt → n.tables t j ≡ m.tables t j
    pub valid : (t j : ℕ) → (n.tables t j).valid ≡ (m.tables t j).valid
    pub pfn : (t j : ℕ) → (n.tables t j).pfn ≡ (m.tables t j).pfn
    pub frames : n.allocated ≡ m.allocated
    pub count : n.frame_count ≡ m.frame_count

  abbrev readable : Pte → Pte
  readable e = record e { prot = prot_rx }

  abbrev first : (i pt : ℕ) → Memory → Memory
  first i pt m = record m {
    tables = set_pte m.tables pt i (record (m.tables pt i) { prot = prot_rx });
  }

  first-Protected : (i pt : ℕ) (m : Memory) → Protected pt i (i + 1) m (first i pt m)
  first-Protected i pt m = record {
    inside = λ j a b. let e : j ≡ i = omega arith in ground arith;
    outside = λ j a. ground arith;
    others = λ t j a. ground arith;
    valid = λ t j. ground arith;
    pfn = λ t j. ground arith;
    frames = refl;
    count = refl;
  }

  Protected-trans :
      {pt lo mid hi : ℕ} {m n o : Memory}
      → lo ≤ mid
      → mid ≤ hi
      → Protected pt lo mid m n
      → Protected pt mid hi n o
      → Protected pt lo hi m o
  Protected-trans {mid = mid} l h a b = record {
    inside = λ j c d. elim (side j) [
      | inl early ↦ b.outside j (inl early) ∙ a.inside j c early
      | inr late ↦ b.inside j late d ∙ ap readable (a.outside j (inr late))
    ];
    outside = λ j c. b.outside j (omega arith) ∙ a.outside j (omega arith);
    others = λ t j c. b.others t j c ∙ a.others t j c;
    valid = λ t j. b.valid t j ∙ a.valid t j;
    pfn = λ t j. b.pfn t j ∙ a.pfn t j;
    frames = b.frames ∙ a.frames;
    count = b.count ∙ a.count;
  }
    where
      side : (j : ℕ) → (j < mid) ⊎ (mid ≤ j)
      side j = omega arith

  pub protect-Protected :
      (left i hi pt : ℕ) (m : Memory) → i + left ≡ hi → Protected pt i hi m (protect left i pt m)
  unfolding protect
  protect-Protected zero i hi pt m e =
      let same : i ≡ hi = omega arith in
      rw same (record {
        inside = λ j a b. absurd (omega arith);
        outside = λ j a. refl;
        others = λ t j a. refl;
        valid = λ t j. refl;
        pfn = λ t j. refl;
        frames = refl;
        count = refl;
      })
  protect-Protected (suc left) i hi pt m e =
      Protected-trans (omega arith) (omega arith) (first-Protected i pt m)
        (protect-Protected left (i + 1) hi pt (first i pt m) (omega arith))

  pub Protected-IsIsolated :
      {pt lo hi : ℕ} {m n : Memory} → Protected pt lo hi m n → IsIsolated m → IsIsolated n
  Protected-IsIsolated p v = record {
    held =
        λ t i h. let o = v.held t i (sym (p.valid t i) ∙ h) in rw (p.pfn t i, p.count, p.frames) o;
    apart = λ t i u j h l e.
        v.apart t i u j (sym (p.valid t i) ∙ h) (sym (p.valid u j) ∙ l)
          (sym (p.pfn t i) ∙ e ∙ p.pfn u j);
  }
