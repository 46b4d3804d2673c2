-- ===== src/Fork/Scratch.antt =====
-- KCCopy of src/process.c: what it does to the page tables.
use yalnix.Base.{
  ℕ, zero, suc, ◌+◌, ◌<◌, ◌≡◌, refl, sym, ◌∙◌, ap, ◌≢◌, ◌⊎◌, inl, inr, true, false, arith, pos,
}
use yalnix.Hardware.{Hardware, prot_rw}
use yalnix.Memory.{Memory, memory_map_page}
use yalnix.Memory.Page.{memory_unmap_page-without_entry}
use yalnix.Memory.Isolation.{IsIsolated}
use yalnix.Fork.{scratch_page, copy_stack, clear_scratch}

module _ ⦃hw : Hardware⦄ where
  -- From `m` to `n` only the scratch page's entry was written.
  pub record Scratched (m n : Memory) : Type 0 where
    pub others : (t j : ℕ) → (t ≢ m.kernel_pt) ⊎ (j ≢ scratch_page) → n.tables t j ≡ m.tables t j
    pub frames : n.allocated ≡ m.allocated
    pub count : n.frame_count ≡ m.frame_count
    pub kernel : n.kernel_pt ≡ m.kernel_pt

  Scratched-trans : {m n o : Memory} → Scratched m n → Scratched n o → Scratched m o
  Scratched-trans a b = record {
    others = λ t j x.
        b.others t j (elim x [ inl y ↦ inl (λ e. y (e ∙ a.kernel)) | inr y ↦ inr y ])
        ∙ a.others t j x;
    frames = b.frames ∙ a.frames;
    count = b.count ∙ a.count;
    kernel = b.kernel ∙ a.kernel;
  }

  map-Scratched :
      (pfn : ℕ) (m : Memory)
      → Scratched m (memory_map_page m.kernel_pt (pos scratch_page) (pos pfn) prot_rw m).1
  unfolding memory_map_page
  map-Scratched pfn m = record {
    others = λ t j x. ground arith;
    frames = ground arith;
    count = ground arith;
    kernel = ground arith;
  }

  copy_stack-Scratched :
      (left i : ℕ) (pfns : ℕ → ℕ) (m : Memory) → Scratched m (copy_stack left i pfns m)
  unfolding copy_stack
  copy_stack-Scratched zero i pfns m = record {
    others = λ t j x. refl;
    frames = refl;
    count = refl;
    kernel = refl;
  }
  copy_stack-Scratched (suc left) i pfns m =
      Scratched-trans (map-Scratched (pfns i) m) (copy_stack-Scratched left (i + 1) pfns _)

  -- The whole of KCCopy on the memory.
  pub clear_scratch-Scratched :
      (left i : ℕ) (pfns : ℕ → ℕ) (m : Memory)
      → m.kernel_pt ≢ 0
      → scratch_page < hw.max_pt_len
      → Scratched m (clear_scratch (copy_stack left i pfns m))
        × (((clear_scratch (copy_stack left i pfns m)).tables m.kernel_pt scratch_page).valid
            ≡ false)
  clear_scratch-Scratched left i pfns m live below =
      let c = copy_stack-Scratched left i pfns m in
      let o = copy_stack left i pfns m in
      let k : o.kernel_pt ≡ m.kernel_pt = c.kernel in
      rw (memory_unmap_page-without_entry o.kernel_pt scratch_page o (λ q. live (sym k ∙ q)) below)
        (
          Scratched-trans c (record {
            others = λ t j x. ground arith;
            frames = refl;
            count = refl;
            kernel = refl;
          }),
          ground (arith, k),
        )

  kept_entry :
      {m n : Memory} (t j : ℕ)
      → Scratched m n
      → (n.tables m.kernel_pt scratch_page).valid ≡ false
      → (n.tables t j).valid ≡ true
      → n.tables t j ≡ m.tables t j
  kept_entry {m} {n} t j s hidden w = elim (place t j) [
    | inl at ↦ absurd (ground (arith, at, hidden, w))
    | inr off ↦ s.others t j off
  ]
    where
      place :
          (t j : ℕ)
          → ((t ≡ m.kernel_pt) × (j ≡ scratch_page)) ⊎ ((t ≢ m.kernel_pt) ⊎ (j ≢ scratch_page))
      place t j = ground arith

  pub Scratched-IsIsolated :
      {m n : Memory}
      → Scratched m n
      → (n.tables m.kernel_pt scratch_page).valid ≡ false
      → IsIsolated m
      → IsIsolated n
  Scratched-IsIsolated {m} {n} s hidden v = record {
    held = λ t i h.
        let e = kept_entry t i s hidden h in
        rw (e, s.count, s.frames) (v.held t i (sym (ap (λ x. x.valid) e) ∙ h));
    apart = λ t i u j h l q.
        let d = kept_entry t i s hidden h in
        let e = kept_entry u j s hidden l in
        v.apart t i u j (sym (ap (λ x. x.valid) d) ∙ h) (sym (ap (λ x. x.valid) e) ∙ l)
          (sym (ap (λ x. x.pfn) d) ∙ q ∙ ap (λ x. x.pfn) e);
  }
