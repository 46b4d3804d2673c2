-- ===== src/Fork/Copy/Region.antt =====
-- ProcessCopyRegion1 as a whole.
use yalnix.Base.{
  ℕ, zero, suc, ◌+◌, ◌<◌, ◌≡◌, refl, sym, ap, ◌∙◌, ◌≢◌, inl, inr, Bool, true, false, none, some,
  arith, Bool-cases, if◌then◌else◌,
}
use yalnix.Hardware.{Hardware, prot_rw}
use yalnix.Memory.Short.{Short, Used, Used-refl, Used-mark, Used-same, Used-Short}
use yalnix.Memory.{Memory, Pte, frame_alloc, memory_free_page_table_frames}
use yalnix.Memory.Page.{with_entry, memory_map_page-with_entry, memory_unmap_page-without_entry}
use yalnix.Memory.Frames.{mark, frame_alloc-cases}
use yalnix.Memory.Isolation.{IsIsolated}
use yalnix.Fork.{scratch_page, copy_bytes, copy_page, copy_pages, end_copy, copy_region}
use yalnix.Fork.Copy.{Copied, put-Landed, put-Copied, skip-Copied, Copied-refl}
use yalnix.Fork.Copy.Twin.{hide, put-hide, Twin, GivenBack}
use yalnix.Fork.Copy.Failure.{failed-GivenBack}

-- How many of the `left` pages from `i` on a table maps.
pub mapped_pages : (left i : ℕ) → (ℕ → Pte) → ℕ
mapped_pages zero i table = 0
mapped_pages (suc left) i table =
    (if (table i).valid then 1 else 0) + mapped_pages left (i + 1) table

-- Where ProcessCopyRegion1 ends.
unfoldable pub Region :
    ⦃hw : Hardware⦄ (dst src : ℕ) (from : ℕ → ℕ) → Memory → Bool × (ℕ → ℕ) × Memory → Type 0
Region ⦃hw = hw⦄ dst src from m (true, to, n) = Twin dst src from m to n
Region ⦃hw = hw⦄ dst src from m (false, to, n) =
    GivenBack dst m n × Short (mapped_pages hw.max_pt_len 0 (m.tables src)) m

-- Where its loop ends.
Pages : ⦃hw : Hardware⦄ (dst src : ℕ) (from : ℕ → ℕ) → Memory → Bool × (ℕ → ℕ) × Memory → Type 0
Pages ⦃hw = hw⦄ dst src from m (true, to, n) =
    Copied dst src from hw.max_pt_len m to n × IsIsolated (hide n)
Pages ⦃hw = hw⦄ dst src from m (false, to, n) =
    GivenBack dst m n × Short (mapped_pages hw.max_pt_len 0 (m.tables src)) m

module _ ⦃hw : Hardware⦄ (dst src : ℕ) (from : ℕ → ℕ) where
  copy_page-skip :
      (i : ℕ) (to : ℕ → ℕ) (x : Memory)
      → (x.tables src i).valid ≡ false
      → copy_page dst src from i to x ≡ (true, to, x)
  unfolding copy_page
  copy_page-skip i to x v = rw v refl

  copy_page-full :
      (i : ℕ) (to : ℕ → ℕ) (x : Memory)
      → (x.tables src i).valid ≡ true
      → frame_alloc x ≡ (none, x)
      → copy_page dst src from i to x ≡ (false, to, x)
  unfolding copy_page
  copy_page-full i to x v full = rw v (rw full (rw full refl))

  copy_page-put :
      (i f : ℕ) (to : ℕ → ℕ) (x : Memory)
      → dst ≢ 0
      → x.kernel_pt ≢ 0
      → i < hw.max_pt_len
      → scratch_page < hw.max_pt_len
      → (x.tables src i).valid ≡ true
      → frame_alloc x ≡ (some f, mark x f)
      → copy_page dst src from i to x ≡ (
        true,
        copy_bytes from i to,
        with_entry x.kernel_pt scratch_page f prot_rw
            (with_entry dst i f (x.tables src i).prot (mark x f)),
      )
  unfolding copy_page
  copy_page-put i f to x live kernel_live lt below v got =
      let a = memory_map_page-with_entry dst i f (x.tables src i).prot (mark x f) live lt in
      let b =
        memory_map_page-with_entry x.kernel_pt scratch_page f prot_rw
          (with_entry dst i f (x.tables src i).prot (mark x f)) kernel_live below in
      rw v (rw got (rw got (rw a (rw b refl))))

  -- One round of the loop, by what its body gives.
  copy_pages-next :
      (left i : ℕ) (to to' : ℕ → ℕ) (x x' : Memory)
      → copy_page dst src from i to x ≡ (true, to', x')
      → copy_pages dst src from (suc left) i to x ≡ copy_pages dst src from left (i + 1) to' x'
  unfolding copy_pages
  copy_pages-next left i to to' x x' e = rw (e, copy_pages) refl

  copy_pages-stop :
      (left i : ℕ) (to to' : ℕ → ℕ) (x x' : Memory)
      → copy_page dst src from i to x ≡ (false, to', x')
      → copy_pages dst src from (suc left) i to x
        ≡ (false, to', memory_free_page_table_frames dst x')
  unfolding copy_pages
  copy_pages-stop left i to to' x x' e = rw (e, copy_pages) refl

module _ ⦃hw : Hardware⦄ (dst src : ℕ) (from : ℕ → ℕ) (m : Memory) (live : dst ≢ 0)
    (apart : dst ≢ src) (not_kernel : dst ≢ m.kernel_pt) (user : src ≢ m.kernel_pt)
    (kernel_live : m.kernel_pt ≢ 0) (below : scratch_page < hw.max_pt_len)
    (blank : (j : ℕ) → (m.tables dst j).valid ≡ false) where
  copy_pages-Pages :
      (left i done : ℕ) (to : ℕ → ℕ) (x : Memory)
      → i + left ≡ hw.max_pt_len
      → done + mapped_pages left i (m.tables src) ≡ mapped_pages hw.max_pt_len 0 (m.tables src)
      → Used done m x
      → Copied dst src from i m to x
      → IsIsolated (hide x)
      → Pages dst src from m (copy_pages dst src from left i to x)
  unfolding copy_pages Pages mapped_pages
  copy_pages-Pages zero i done to x e all u c v =
      let same : i ≡ hw.max_pt_len = omega arith in (rw same at c, v)
  copy_pages-Pages (suc left) i done to x e all u c v =
      let k = c.kernel in
      let same = c.others src i (λ q. apart (sym q)) (inl user) in
      let next = copy_pages-next dst src from left i to in
      elim (Bool-cases (m.tables src i).valid) [
        | inl used ↦
            let w : (x.tables src i).valid ≡ true = ap (λ y. y.valid) same ∙ used in
            elim (frame_alloc-cases x) [
              | inl full ↦
                  rw
                    (copy_pages-stop dst src from left i to to x x
                      (copy_page-full dst src from i to x w full))
                    (
                      failed-GivenBack dst src from m live apart not_kernel user i to x
                          (omega arith) blank c v full,
                      Used-Short _ (let total = rw used at all in omega (arith, total)) full u,
                    )
              | inr (f, got, lt, free) ↦
                  let p =
                    put-Landed dst src from m live apart not_kernel user i f x
                      (λ q. not_kernel (sym q ∙ k)) in
                  rw
                    (next _ x _ (
                      copy_page-put dst src from i f to x live (λ q. kernel_live (sym k ∙ q))
                        (omega arith) below w got))
                    (copy_pages-Pages left (i + 1) (done + 1) _ _ (omega arith)
                      (let total = rw used at all in omega (arith, total))
                      (Used-same refl (λ p. refl) (Used-mark f u))
                      (put-Copied dst src from m live apart not_kernel user i f to x _ lt free used
                        c p)
                      (put-hide dst src from m live apart not_kernel user i f x _
                        (λ q. not_kernel (sym q ∙ k)) lt free v p))
            ]
        | inr unused ↦
            rw (next to x x (copy_page-skip dst src from i to x (ap (λ y. y.valid) same ∙ unused)))
              (copy_pages-Pages left (i + 1) done to x (omega arith)
                (let total = rw unused at all in omega (arith, total)) u
                (skip-Copied dst src from m live apart not_kernel user i to x unused (blank i) c) v)
      ]

  hide-IsIsolated : IsIsolated m → IsIsolated (hide m)
  hide-IsIsolated v = record {
    held = λ t i h. ground (arith, v.held t i);
    apart = λ t i u j h l e. ground (arith, v.apart t i u j);
  }

  end_copy-Region :
      (r : Bool × (ℕ → ℕ) × Memory) → Pages dst src from m r → Region dst src from m (end_copy r)
  unfolding Pages Region
  end_copy-Region (false, to, n) g = g
  end_copy-Region (true, to, n) (c, v) =
      let k = c.kernel in
      rw
        (memory_unmap_page-without_entry n.kernel_pt scratch_page n (λ q. kernel_live (sym k ∙ q))
          below)
        (record {
          mapped = λ j a w. ground (arith, c.mapped j a w, not_kernel, k);
          unmapped = λ j a w. ground (arith, c.unmapped j a w, not_kernel, k);
          contents = c.contents;
          others = λ t j a b. ground (arith, c.others t j a b, k);
          scratch = ground (arith, k);
          kept = c.kept;
          kernel = k;
          isolated = record { held = v.held; apart = v.apart };
        })

  -- Two page tables other than the kernel's, of which the child's is empty, and a memory where no two
  -- entries share a frame. Where ProcessCopyRegion1 succeeds, the child's table maps what the
  -- parent's does, with the same protection, at frames that were free, each page holds what the
  -- parent's holds, other tables are as before, and no two entries share a frame. Where it fails, fewer
  -- frames are free than pages are to be copied, the child's table is empty and the same frames are in use as before; but unless no frame was free to
  -- begin with, the scratch page is still mapped, to a frame that is free.
  pub copy_region-Region :
      (to : ℕ → ℕ) → IsIsolated m → Region dst src from m (copy_region dst src from to m)
  unfolding copy_region
  copy_region-Region to v = end_copy-Region _ (
      copy_pages-Pages hw.max_pt_len 0 0 to m (omega arith) (omega arith) (Used-refl m)
        (Copied-refl dst src from m live apart not_kernel user to) (hide-IsIsolated v))
