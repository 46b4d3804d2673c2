-- ===== src/Boot/Identity.antt =====
-- The loops of MemoryBuildKernelRegion0 (src/memory.c).
use yalnix.Base.{ℕ, zero, suc, ◌+◌, ◌≤◌, ◌<◌, ◌≡◌, refl, ◌∙◌, ◌≢◌, ◌⊎◌, inl, inr, true, arith}
use yalnix.Hardware.{Hardware}
use yalnix.Memory.{Memory}
use yalnix.Memory.Page.{with_entry, memory_map_page-with_entry}
use yalnix.Boot.{map_identity}

-- From `m` to `n` the kernel's pages `lo` to `hi` were mapped to the frames of the same number.
pub record Identity (lo hi prot : ℕ) (m n : Memory) : Type 0 where
  pub inside :
      (j : ℕ)
      → lo ≤ j
      → j < hi
      → n.tables m.kernel_pt j ≡ record { valid = true; prot = prot; pfn = j }
  pub outside : (j : ℕ) → (j < lo) ⊎ (hi ≤ j) → n.tables m.kernel_pt j ≡ m.tables m.kernel_pt j
  pub others : (t j : ℕ) → t ≢ m.kernel_pt → n.tables t j ≡ m.tables t j
  pub allocated : n.allocated ≡ m.allocated
  pub count : n.frame_count ≡ m.frame_count
  pub kernel : n.kernel_pt ≡ m.kernel_pt
  pub brk : n.kernel_brk_page ≡ m.kernel_brk_page
  pub highest : n.highest_pre_vm_brk_page ≡ m.highest_pre_vm_brk_page

module _ ⦃hw : Hardware⦄ where
  first-Identity :
      (i prot : ℕ) (m : Memory) → Identity i (i + 1) prot m (with_entry m.kernel_pt i i prot m)
  first-Identity i prot m = record {
    inside = λ j a b. let e : j ≡ i = omega arith in ground arith;
    outside = λ j a. ground arith;
    others = λ t j a. ground arith;
    allocated = refl;
    count = refl;
    kernel = refl;
    brk = refl;
    highest = refl;
  }

  Identity-trans :
      {lo mid hi prot : ℕ} {m n o : Memory}
      → lo ≤ mid
      → mid ≤ hi
      → Identity lo mid prot m n
      → Identity mid hi prot n o
      → Identity lo hi prot m o
  Identity-trans {mid = mid} l h a b =
      let k = a.kernel in
      record {
        inside = λ j c d. elim (side j) [
          | inl early ↦ rw k at (b.outside j (inl early)) ∙ a.inside j c early
          | inr late ↦ rw k at (b.inside j late d)
        ];
        outside = λ j c. rw k at (b.outside j (omega arith)) ∙ a.outside j (omega arith);
        others = λ t j c. b.others t j (λ e. c (e ∙ k)) ∙ a.others t j c;
        allocated = b.allocated ∙ a.allocated;
        count = b.count ∙ a.count;
        kernel = b.kernel ∙ k;
        brk = b.brk ∙ a.brk;
        highest = b.highest ∙ a.highest;
      }
    where
      side : (j : ℕ) → (j < mid) ⊎ (mid ≤ j)
      side j = omega arith

  pub map_identity-Identity :
      (left i hi prot : ℕ) (m : Memory)
      → m.kernel_pt ≢ 0
      → i + left ≡ hi
      → hi ≤ hw.max_pt_len
      → Identity i hi prot m (map_identity left i prot m)
  unfolding map_identity
  map_identity-Identity zero i hi prot m live e le =
      let same : i ≡ hi = omega arith in
      rw same (record {
        inside = λ j a b. absurd (omega arith);
        outside = λ j a. refl;
        others = λ t j a. refl;
        allocated = refl;
        count = refl;
        kernel = refl;
        brk = refl;
        highest = refl;
      })
  map_identity-Identity (suc left) i hi prot m live e le =
      rw (memory_map_page-with_entry m.kernel_pt i i prot m live (omega arith)) (
        Identity-trans (omega arith) (omega arith) (first-Identity i prot m) (
          map_identity-Identity left (i + 1) hi prot (with_entry m.kernel_pt i i prot m) live
            (omega arith) le))
