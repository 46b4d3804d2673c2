-- ===== src/Fork/Stacked.antt =====
-- The memory at a fork once the child's kernel stack was taken, against the memory before.
use yalnix.Base.{
  ℕ, ◌≡◌, refl, sym, ◌∙◌, ap, ◌≢◌, ◌⊎◌, inl, inr, true, false, arith, ◌==◌, ==_refl, Bool-cases,
}
use yalnix.Hardware.{Hardware, stack_pages}
use yalnix.Memory.{Memory}
use yalnix.Memory.Isolation.{IsIsolated}
use yalnix.State.{Kernel}
use yalnix.Fork.Stack.{Taken}
use yalnix.Fork.Promise.{CanFork}
use yalnix.Fork.Child.{blanked}

module _ ⦃hw : Hardware⦄ (child child_pt n : ℕ) (k : Kernel) (h : CanFork child child_pt k) where
  -- A frame that was in use still is when the stack was taken.
  pub Taken-kept :
      {pfns : ℕ → ℕ} {m : Memory}
      → Taken stack_pages (blanked child child_pt n k) pfns m
      → (p : ℕ) → k.memory.allocated p ≡ true
      → m.allocated p ≡ true
  Taken-kept t p u = t.spared p (λ j a e. ground (arith, t.fresh j a, e, u)) ∙ u

  pub Taken-free :
      {pfns : ℕ → ℕ} {m : Memory}
      → Taken stack_pages (blanked child child_pt n k) pfns m
      → (p : ℕ) → m.allocated p ≡ false
      → k.memory.allocated p ≡ false
  Taken-free t p f = elim (Bool-cases (k.memory.allocated p)) [
    | inl u ↦ absurd (ground (arith, Taken-kept t p u, f))
    | inr g ↦ g
  ]

  pub Taken-table :
      {pfns : ℕ → ℕ} {m : Memory}
      → Taken stack_pages (blanked child child_pt n k) pfns m
      → (j : ℕ)
      → m.tables (k.procs k.current).region1_pt j ≡ k.memory.tables (k.procs k.current).region1_pt j
  Taken-table t j =
      let a : (child_pt == (k.procs k.current).region1_pt) ≡ false = ground (arith, h.pt_new) in
      ap (λ y. y.tables (k.procs k.current).region1_pt j) t.shape ∙ rw a refl

  pub Taken-blank :
      {pfns : ℕ → ℕ} {m : Memory}
      → Taken stack_pages (blanked child child_pt n k) pfns m
      → (j : ℕ) → (m.tables child_pt j).valid ≡ false
  Taken-blank t j = ap (λ y. (y.tables child_pt j).valid) t.shape ∙ rw (==_refl child_pt) refl

  -- No entry is new.
  old_entry :
      {pfns : ℕ → ℕ} {m : Memory}
      → Taken stack_pages (blanked child child_pt n k) pfns m
      → (u i : ℕ) → (m.tables u i).valid ≡ true
      → m.tables u i ≡ k.memory.tables u i
  old_entry t u i w = elim (side u) [
    | inl e ↦ absurd (ground (arith, Taken-blank t i, e, w))
    | inr off ↦
        let a : (child_pt == u) ≡ false = ground (arith, off) in
        ap (λ y. y.tables u i) t.shape ∙ rw a refl
  ]
    where
      side : (u : ℕ) → (u ≡ child_pt) ⊎ (u ≢ child_pt)
      side u = omega arith

  pub Taken-IsIsolated :
      {pfns : ℕ → ℕ} {m : Memory}
      → Taken stack_pages (blanked child child_pt n k) pfns m
      → IsIsolated m
  Taken-IsIsolated {m = m} t =
      let v = h.isolated in
      let count : m.frame_count ≡ k.memory.frame_count = ap (λ y. y.frame_count) t.shape in
      record {
        held = λ u i w.
            let e = old_entry t u i w in
            let o = v.held u i (sym (ap (λ y. y.valid) e) ∙ w) in
            rw (e, count) (o.0, Taken-kept t _ o.1);
        apart = λ u i q j w x e.
            let d = old_entry t u i w in
            let f = old_entry t q j x in
            v.apart u i q j (sym (ap (λ y. y.valid) d) ∙ w) (sym (ap (λ y. y.valid) f) ∙ x)
              (sym (ap (λ y. y.pfn) d) ∙ e ∙ ap (λ y. y.pfn) f);
      }
