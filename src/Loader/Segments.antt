-- ===== src/Loader/Segments.antt =====
-- The three calls of MapRange in LoadProgram (src/template.c), over a table that was emptied.
use yalnix.Base.{
  ℕ, ◌+◌, ◌≤◌, ◌<◌, ◌≡◌, refl, ◌∙◌, ap, ◌≢◌, ◌⊎◌, inl, inr, Bool, true, false, List, arith,
  Bool-cases,
}
use yalnix.Hardware.{Hardware, prot_rw}
use yalnix.Memory.{Memory}
use yalnix.Memory.Isolation.{IsIsolated}
use yalnix.Memory.Grow.Ledger.{SameEntry, Grown}
use yalnix.UserMemory.{map_range}
use yalnix.Memory.Short.{Short-after, Short-more}
use yalnix.UserMemory.Range.{Counted, map_range-Counted, Mapped, map_range-Mapped}
use yalnix.Loader.{LoadInfo, text_page, data_page, stack_npg, stack_base_page_of, map_segments}
use yalnix.Loader.Ranges.{
  still_invalid, still_same, Mapped-true, Mapped-others, Mapped-outside, Counted-true,
  Counted-false, Apart, Built, Mappings,
}

module _ ⦃hw : Hardware⦄ (pt : ℕ) (li : LoadInfo) (args : List (List ℕ)) (m : Memory) (nz : pt ≢ 0)
    (v : IsIsolated m) (empty : (j : ℕ) → j < hw.max_pt_len → (m.tables pt j).valid ≡ false)
    (ordered : text_page li + li.t_npg ≤ data_page li)
    (fits : data_page li + (li.id_npg + li.ud_npg) + stack_npg args < hw.max_pt_len) where
  data_npg : ℕ
  data_npg = li.id_npg + li.ud_npg

  abbrev r₁ : Bool × Memory
  r₁ = map_range pt prot_rw li.t_npg (text_page li) m

  abbrev r₂ : Bool × Memory
  r₂ = map_range pt prot_rw (li.id_npg + li.ud_npg) (data_page li) r₁.1

  abbrev r₃ : Bool × Memory
  r₃ = map_range pt prot_rw (stack_npg args) (stack_base_page_of args) r₂.1

  text-Mapped : Mapped pt (text_page li) (text_page li + li.t_npg) prot_rw m r₁
  text-Mapped =
      map_range-Mapped pt (text_page li) prot_rw m nz li.t_npg (omega arith)
        (λ j a b. empty j (omega arith)) v

  text-Counted : Counted li.t_npg m r₁
  text-Counted = map_range-Counted pt (text_page li) prot_rw m nz li.t_npg (omega arith)

  data-Counted : Counted (li.id_npg + li.ud_npg) r₁.1 r₂
  data-Counted =
      map_range-Counted pt (data_page li) prot_rw r₁.1 nz (li.id_npg + li.ud_npg) (omega arith)

  stack-Counted : Counted (stack_npg args) r₂.1 r₃
  stack-Counted =
      map_range-Counted pt (stack_base_page_of args) prot_rw r₂.1 nz (stack_npg args) (omega arith)

  text_off : (j : ℕ) → j < hw.max_pt_len → Apart li args j → (r₁.1.tables pt j).valid ≡ false
  text_off j lt a =
      still_invalid
        (Mapped-outside pt (text_page li) (text_page li + li.t_npg) prot_rw m r₁ text-Mapped j a.0)
        (empty j lt)

  text_stop : r₁.0 ≡ false → map_segments pt li args m ≡ (false, r₁.1)
  unfolding map_segments
  text_stop e = rw e refl

  data_stop : r₁.0 ≡ true → r₂.0 ≡ false → map_segments pt li args m ≡ (false, r₂.1)
  unfolding map_segments
  data_stop d e = rw (d, e) refl

  all_mapped : r₁.0 ≡ true → r₂.0 ≡ true → map_segments pt li args m ≡ (r₃.0, r₃.1)
  unfolding map_segments
  all_mapped d e = rw (d, e) refl

  module _ (one : r₁.0 ≡ true) where
    g₁ : Grown pt (text_page li) (text_page li + li.t_npg) prot_rw m r₁.1
    g₁ = (Mapped-true pt (text_page li) (text_page li + li.t_npg) prot_rw m r₁ text-Mapped one).0

    v₁ : IsIsolated r₁.1
    v₁ = (Mapped-true pt (text_page li) (text_page li + li.t_npg) prot_rw m r₁ text-Mapped one).1

    data-Mapped : Mapped pt (data_page li) (data_page li + (li.id_npg + li.ud_npg)) prot_rw r₁.1 r₂
    data-Mapped =
        map_range-Mapped pt (data_page li) prot_rw r₁.1 nz (li.id_npg + li.ud_npg) (omega arith)
          (λ j a b. still_invalid (g₁.above j (omega arith)) (empty j (omega arith))) v₁

    data_off : (j : ℕ) → j < hw.max_pt_len → Apart li args j → (r₂.1.tables pt j).valid ≡ false
    data_off j lt a =
        still_invalid
          (Mapped-outside pt (data_page li) (data_page li + (li.id_npg + li.ud_npg)) prot_rw r₁.1 r₂
            data-Mapped j a.1)
          (text_off j lt a)

    module _ (two : r₂.0 ≡ true) where
      abbrev data_end : ℕ
      data_end = data_page li + (li.id_npg + li.ud_npg)

      g₂ : Grown pt (data_page li) data_end prot_rw r₁.1 r₂.1
      g₂ = (Mapped-true pt (data_page li) data_end prot_rw r₁.1 r₂ data-Mapped two).0

      v₂ : IsIsolated r₂.1
      v₂ = (Mapped-true pt (data_page li) data_end prot_rw r₁.1 r₂ data-Mapped two).1

      stack-Mapped :
          Mapped pt
            (stack_base_page_of args)
            (stack_base_page_of args + stack_npg args)
            prot_rw
            r₂.1
            r₃
      stack-Mapped =
          map_range-Mapped pt (stack_base_page_of args) prot_rw r₂.1 nz (stack_npg args)
            (omega arith)
            (λ j a b.
              still_invalid (g₂.above j (omega arith))
                (still_invalid (g₁.above j (omega arith)) (empty j (omega arith))))
            v₂

      built : (three : r₃.0 ≡ true) → Built pt li args m r₃.1
      built three =
          let (g, w) =
            Mapped-true pt (stack_base_page_of args) (stack_base_page_of args + stack_npg args)
              prot_rw r₂.1 r₃ stack-Mapped three in
          record {
            text = λ j a b.
                let one = g₁.mapped j a b in
                let s = still_same (g₂.below j (omega arith)) one.0 in
                let o = still_same (g.below j (omega arith)) (ap (λ e. e.valid) s ∙ one.0) in
                rw (o, s) one;
            bytes = λ j a b.
                let two = g₂.mapped j a b in
                let o = still_same (g.below j (omega arith)) two.0 in rw o two;
            stack = λ j a b. g.mapped j a (omega arith);
            gaps = λ j a b c d.
                still_invalid (g.below j d)
                  (still_invalid (outside g₂ j c) (still_invalid (outside g₁ j b) (empty j a)));
            others = λ t j off. g.others t j off ∙ g₂.others t j off ∙ g₁.others t j off;
            isolated = w;
          }
        where
          outside :
              {lo hi : ℕ} {x y : Memory}
              → Grown pt lo hi prot_rw x y
              → (j : ℕ) → (j < lo) ⊎ (hi ≤ j)
              → SameEntry (x.tables pt j) (y.tables pt j)
          outside g j (inl b) = g.below j b
          outside g j (inr a) = g.above j a

  -- The third range, once the first two are mapped.
  stack-Mappings : r₁.0 ≡ true → r₂.0 ≡ true → Mappings pt li args m (r₃.0, r₃.1)
  unfolding Mappings
  stack-Mappings one two = elim (Bool-cases r₃.0) [
    | inl t ↦ rw t (built one two t)
    | inr f ↦ rw f (record {
      gone = λ j lt a.
          still_invalid
            (Mapped-outside pt (stack_base_page_of args) (stack_base_page_of args + stack_npg args)
              prot_rw r₂.1 r₃ (stack-Mapped one two) j (inl a.2))
            (data_off one j lt a);
      others = λ t j off.
          Mapped-others pt (stack_base_page_of args) (stack_base_page_of args + stack_npg args)
            prot_rw r₂.1 r₃ (stack-Mapped one two) t j off
          ∙ (g₂ one two).others t j off
          ∙ (g₁ one).others t j off;
      lack = Short-after (Counted-true li.t_npg m r₁ text-Counted one) (
          Short-after (Counted-true _ r₁.1 r₂ data-Counted two)
            (Counted-false _ r₂.1 r₃ stack-Counted f));
    })
  ]

  pub map_segments-Mappings : Mappings pt li args m (map_segments pt li args m)
  unfolding Mappings
  map_segments-Mappings = elim (Bool-cases r₁.0) [
    | inr f ↦ rw (text_stop f) (record {
      gone = text_off;
      others = Mapped-others pt (text_page li) (text_page li + li.t_npg) prot_rw m r₁ text-Mapped;
      lack = Short-more (Counted-false _ m r₁ text-Counted f) (omega arith);
    })
    | inl one ↦ elim (Bool-cases r₂.0) [
      | inr f ↦ rw (data_stop one f) (record {
        gone = data_off one;
        others = λ t j off.
            Mapped-others pt (data_page li) (data_page li + (li.id_npg + li.ud_npg)) prot_rw r₁.1 r₂
              (data-Mapped one) t j off
            ∙ (g₁ one).others t j off;
        lack =
            Short-more
              (Short-after (Counted-true li.t_npg m r₁ text-Counted one)
                (Counted-false _ r₁.1 r₂ data-Counted f))
              (omega arith);
      })
      | inl two ↦ rw (all_mapped one two) (stack-Mappings one two)
    ]
  ]
