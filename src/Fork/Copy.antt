-- ===== src/Fork/Copy.antt =====
-- ProcessCopyRegion1 of src/process.c: the child's region 1 becomes a twin of the parent's.
pub mod Twin
pub mod Failure
pub mod Region
use yalnix.Base.{
  ℕ, zero, suc, ◌+◌, ◌-◌, ◌*◌, ◌≤◌, ◌<◌, ◌≡◌, refl, ap, ◌∙◌, ◌≢◌, ◌⊎◌, inl, inr, Bool, true, false,
  none, some, arith, update, pos, Bool-cases, ◌==◌, leb, ltb, ◌&&◌, if◌then◌else◌,
}
use yalnix.Hardware.{Hardware, page_size, address_of, prot_rw}
use yalnix.Memory.{Memory, Pte, frame_alloc, frame_free, memory_map_page, memory_unmap_page}
use yalnix.Memory.Page.{with_entry, memory_map_page-with_entry}
use yalnix.Memory.Frames.{mark, frame_alloc-cases}
use yalnix.Memory.Isolation.{IsIsolated}
use yalnix.Fork.{scratch_page, copy_bytes, copy_page, copy_pages}

module _ ⦃hw : Hardware⦄ where
  -- The address lies in page `j` of region 1.
  abbrev pub InPage : (j a : ℕ) → Type 0
  InPage j a = (hw.vmem_1_base + address_of j ≤ a) × (a < hw.vmem_1_base + address_of j + page_size)

  -- The pages below `i` of the table `src` were copied to `dst`, each to a fresh frame, from the
  -- memory `m` on; `to` is what the child's pages hold now.
  pub record Copied (dst src : ℕ) (from : ℕ → ℕ) (i : ℕ) (m : Memory) (to : ℕ → ℕ) (n : Memory)
      : Type 0 where
    pub mapped :
        (j : ℕ)
        → j < i
        → (m.tables src j).valid ≡ true
        → ((n.tables dst j).valid ≡ true)
          × ((n.tables dst j).prot ≡ (m.tables src j).prot)
          × (m.allocated (n.tables dst j).pfn ≡ false)
          × ((n.tables dst j).pfn < m.frame_count)
    pub unmapped : (j : ℕ) → j < i → (m.tables src j).valid ≡ false → (n.tables dst j).valid ≡ false
    pub ahead : (j : ℕ) → i ≤ j → n.tables dst j ≡ m.tables dst j
    pub others :
        (t j : ℕ) → t ≢ dst → (t ≢ m.kernel_pt) ⊎ (j ≢ scratch_page) → n.tables t j ≡ m.tables t j
    pub contents : (j a : ℕ) → j < i → (m.tables src j).valid ≡ true → InPage j a → to a ≡ from a
    pub kept : (p : ℕ) → m.allocated p ≡ true → n.allocated p ≡ true
    pub spared :
        (p : ℕ)
        → ((j : ℕ) → j < i → (n.tables dst j).valid ≡ true → (n.tables dst j).pfn ≢ p)
        → n.allocated p ≡ m.allocated p
    pub scratch :
        ((n.tables m.kernel_pt scratch_page ≡ m.tables m.kernel_pt scratch_page)
          × ((p : ℕ) → n.allocated p ≡ m.allocated p))
        ⊎ ((j : ℕ) × (j < i)
            × ((n.tables dst j).valid ≡ true)
            × ((n.tables m.kernel_pt scratch_page).valid ≡ true)
            × ((n.tables m.kernel_pt scratch_page).pfn ≡ (n.tables dst j).pfn))
    pub count : n.frame_count ≡ m.frame_count
    pub kernel : n.kernel_pt ≡ m.kernel_pt
    pub mmu : n.vm_enabled ≡ m.vm_enabled

  module _ (dst src : ℕ) (from : ℕ → ℕ) (m : Memory) (live : dst ≢ 0) (apart : dst ≢ src)
      (not_kernel : dst ≢ m.kernel_pt) (user : src ≢ m.kernel_pt) where
    pub Copied-refl : (to : ℕ → ℕ) → Copied dst src from 0 m to m
    Copied-refl to = record {
      mapped = λ j a. absurd (omega arith);
      unmapped = λ j a. absurd (omega arith);
      ahead = λ j a. refl;
      others = λ t j a b. refl;
      contents = λ j a b. absurd (omega arith);
      kept = λ p a. a;
      spared = λ p a. refl;
      scratch = inl (refl, λ p. refl);
      count = refl;
      kernel = refl;
      mmu = refl;
    }

    pub skip-Copied :
        (i : ℕ) (to : ℕ → ℕ) (n : Memory)
        → (m.tables src i).valid ≡ false
        → (m.tables dst i).valid ≡ false
        → Copied dst src from i m to n
        → Copied dst src from (i + 1) m to n
    skip-Copied i to n hole blank c = record {
      mapped = λ j a v. ground (arith, c.mapped j);
      unmapped = λ j a v. elim (here j a) [
        | inl b ↦ c.unmapped j b v
        | inr e ↦ rw (e, c.ahead i (omega arith)) blank
      ];
      ahead = λ j a. c.ahead j (omega arith);
      others = c.others;
      contents = λ j a b v w. ground (arith, c.contents j a);
      kept = c.kept;
      spared = λ p a. c.spared p (λ j b. a j (omega arith));
      scratch = elim c.scratch [ inl e ↦ inl e | inr s ↦ inr (s.0, omega arith, s.2, s.3, s.4) ];
      count = c.count;
      kernel = c.kernel;
      mmu = c.mmu;
    }
      where
        here : (j : ℕ) → j < i + 1 → (j < i) ⊎ (j ≡ i)
        here j a = omega arith

    -- The memory after page `i` was copied to the frame `f`.
    abbrev pub put : (i f : ℕ) → Memory → Memory
    put i f n =
        with_entry n.kernel_pt scratch_page f prot_rw
          (with_entry dst i f (n.tables src i).prot (mark n f))

    copy_bytes-cases :
        (i a : ℕ) (to : ℕ → ℕ)
        → (copy_bytes from i to a ≡ from a) ⊎ ((copy_bytes from i to a ≡ to a) × (InPage i a → ⊥))
    copy_bytes-cases i a to =
        let b = hw.vmem_1_base + address_of i in
        elim (Bool-cases (leb b a && ltb a (b + page_size))) [
          | inl t ↦ inl (rw t (ap from (let le : b ≤ a = ground (arith, t) in omega arith)))
          | inr f ↦ inr (rw f refl, λ x. ground (arith, f, x))
        ]

    -- What `put` leaves of each part of the memory.
    pub record Landed (i f : ℕ) (n o : Memory) : Type 0 where
      pub at_page : o.tables dst i ≡ record { valid = true; prot = (n.tables src i).prot; pfn = f }
      pub at_scratch :
          o.tables n.kernel_pt scratch_page ≡ record { valid = true; prot = prot_rw; pfn = f }
      pub rest :
          (t j : ℕ)
          → (t ≢ dst) ⊎ (j ≢ i)
          → (t ≢ n.kernel_pt) ⊎ (j ≢ scratch_page)
          → o.tables t j ≡ n.tables t j
      pub frames : (p : ℕ) → o.allocated p ≡ (if p == f then true else n.allocated p)
      pub count : o.frame_count ≡ n.frame_count
      pub kernel : o.kernel_pt ≡ n.kernel_pt
      pub mmu : o.vm_enabled ≡ n.vm_enabled

    pub put-Landed : (i f : ℕ) (n : Memory) → n.kernel_pt ≢ dst → Landed i f n (put i f n)
    put-Landed i f n other = record {
      at_page = ground arith;
      at_scratch = ground arith;
      rest = λ t j x y. ground arith;
      frames = λ p. ground arith;
      count = ground arith;
      kernel = ground arith;
      mmu = ground arith;
    }

    pub put-Copied :
        (i f : ℕ) (to : ℕ → ℕ) (n o : Memory)
        → f < n.frame_count
        → n.allocated f ≡ false
        → (m.tables src i).valid ≡ true
        → Copied dst src from i m to n
        → Landed i f n o
        → Copied dst src from (i + 1) m (copy_bytes from i to) o
    put-Copied i f to n o inside free v c p =
        let k = c.kernel in
        let same : n.tables src i ≡ m.tables src i =
          c.others src i (λ e. apart (ground (arith, e))) (inl user) in
        let was : m.allocated f ≡ false = elim (Bool-cases (m.allocated f)) [
          | inl t ↦ absurd (ground (arith, c.kept f t, free))
          | inr e ↦ e
        ] in
        let low : (j : ℕ) → j < i → o.tables dst j ≡ n.tables dst j =
          λ j a. p.rest dst j (inr (omega arith)) (inl (λ e. not_kernel (ground (arith, e, k)))) in
        record {
          mapped = λ j a w. elim (here j a) [
            | inl b ↦ rw (low j b) (c.mapped j b w)
            | inr e ↦
                rw (e, p.at_page) (refl, ground (arith, same), was, ground (arith, inside, c.count))
          ];
          unmapped = λ j a w. elim (here j a) [
            | inl b ↦ rw (low j b) (c.unmapped j b w)
            | inr e ↦ absurd (ground (arith, e, v, w))
          ];
          ahead = λ j a.
              p.rest dst j (inr (omega arith)) (inl (λ e. not_kernel (ground (arith, e, k))))
              ∙ c.ahead j (omega arith);
          others = λ t j a b.
              p.rest t j (inl a)
                (elim b [ inl x ↦ inl (λ e. x (ground (arith, e, k))) | inr y ↦ inr y ])
              ∙ c.others t j a b;
          contents = λ j a b w x. copied j a b w x (copy_bytes-cases i a to);
          kept = λ q a. rw (p.frames q) (ground (arith, c.kept q a));
          spared = λ q a.
              let unused : f ≢ q =
                λ e. a i (omega arith) (ground (arith, p.at_page)) (ground (arith, p.at_page, e)) in
              let before = c.spared q (λ j b x e.
                a j (omega arith) (ground (arith, low j b, x)) (ground (arith, low j b, e))) in
              ground (arith, p.frames q, unused, before);
          scratch = inr (
            i,
            omega arith,
            ground (arith, p.at_page),
            ground (arith, p.at_scratch, k),
            ground (arith, p.at_page, p.at_scratch, k),
          );
          count = p.count ∙ c.count;
          kernel = p.kernel ∙ k;
          mmu = p.mmu ∙ c.mmu;
        }
      where
        here : (j : ℕ) → j < i + 1 → (j < i) ⊎ (j ≡ i)
        here j a = omega arith

        copied :
            (j a : ℕ)
            → j < i + 1
            → (m.tables src j).valid ≡ true
            → InPage j a
            → (copy_bytes from i to a ≡ from a)
              ⊎ ((copy_bytes from i to a ≡ to a) × (InPage i a → ⊥))
            → copy_bytes from i to a ≡ from a
        copied j a b w x (inl e) = e
        copied j a b w x (inr e) = elim (here j b) [
          | inl l ↦ e.0 ∙ c.contents j a l w x
          | inr q ↦ absurd (e.1 (rw q at x))
        ]
