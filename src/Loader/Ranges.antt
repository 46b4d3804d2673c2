-- ===== src/Loader/Ranges.antt =====
-- What MapRange and its three calls in LoadProgram (src/template.c) leave of a table.
use yalnix.Base.{ℕ, ◌+◌, ◌≤◌, ◌<◌, ◌≡◌, ◌∙◌, ap, ◌≢◌, ◌⊎◌, inl, inr, Bool, true, false, List, arith}
use yalnix.Hardware.{Hardware, prot_rw}
use yalnix.Memory.{Memory, Pte}
use yalnix.Memory.Isolation.{IsIsolated}
use yalnix.Memory.Grow.Ledger.{SameEntry, Grown}
use yalnix.Memory.Short.{Short, Used}
use yalnix.UserMemory.Range.{Counted, Mapped}
use yalnix.Loader.{LoadInfo, text_page, data_page, stack_npg, stack_base_page_of}

-- An entry that was not valid and is the same is not valid.
pub still_invalid : {e e' : Pte} → SameEntry e e' → e.valid ≡ false → e'.valid ≡ false
still_invalid (inl same) v = ap (λ x. x.valid) same ∙ v
still_invalid (inr none_left) v = none_left.0

pub still_same : {e e' : Pte} → SameEntry e e' → e.valid ≡ true → e' ≡ e
still_same (inl same) v = same
still_same (inr none_left) v = absurd (ground (arith, none_left.1, v))

pub Mapped-true :
    (pt lo hi prot : ℕ) (m : Memory) (r : Bool × Memory)
    → Mapped pt lo hi prot m r
    → r.0 ≡ true
    → Grown pt lo hi prot m r.1 × IsIsolated r.1
Mapped-true pt lo hi prot m (true, n) g e = g
Mapped-true pt lo hi prot m (false, n) g e = absurd (ground (arith, e))

pub Mapped-others :
    (pt lo hi prot : ℕ) (m : Memory) (r : Bool × Memory)
    → Mapped pt lo hi prot m r
    → (t j : ℕ) → t ≢ pt
    → r.1.tables t j ≡ m.tables t j
Mapped-others pt lo hi prot m (true, n) g t j off = g.0.others t j off
Mapped-others pt lo hi prot m (false, n) g t j off = g.3.others t j off

pub Mapped-outside :
    (pt lo hi prot : ℕ) (m : Memory) (r : Bool × Memory)
    → Mapped pt lo hi prot m r
    → (j : ℕ) → (j < lo) ⊎ (hi ≤ j)
    → SameEntry (m.tables pt j) (r.1.tables pt j)
Mapped-outside pt lo hi prot m (true, n) g j (inl b) = g.0.below j b
Mapped-outside pt lo hi prot m (true, n) g j (inr a) = g.0.above j a
Mapped-outside pt lo hi prot m (false, n) (stop, le, lt, g, full, v) j (inl b) = g.below j b
Mapped-outside pt lo hi prot m (false, n) (stop, le, lt, g, full, v) j (inr a) =
    g.above j (omega (arith, lt, a))

pub Counted-true :
    (c : ℕ) (m : Memory) (r : Bool × Memory) → Counted c m r → r.0 ≡ true → Used c m r.1
Counted-true c m (true, n) u e = u
Counted-true c m (false, n) u e = absurd (ground (arith, e))

pub Counted-false :
    (c : ℕ) (m : Memory) (r : Bool × Memory) → Counted c m r → r.0 ≡ false → Short c m
Counted-false c m (true, n) u e = absurd (ground (arith, e))
Counted-false c m (false, n) u e = u

-- The page `j` is in none of the three segments.
abbrev pub Apart : ⦃hw : Hardware⦄ → LoadInfo → List (List ℕ) → ℕ → Type 0
Apart li args j =
    ((j < text_page li) ⊎ (text_page li + li.t_npg ≤ j))
    × ((j < data_page li) ⊎ (data_page li + (li.id_npg + li.ud_npg) ≤ j))
    × (j < stack_base_page_of args)

-- Fewer frames are free in `m` than the program has pages; no page but the program's is mapped.
pub record Broken ⦃hw : Hardware⦄ (pt : ℕ) (li : LoadInfo) (args : List (List ℕ)) (m n : Memory)
    : Type 0 where
  pub gone : (j : ℕ) → j < hw.max_pt_len → Apart li args j → (n.tables pt j).valid ≡ false
  pub others : (t j : ℕ) → t ≢ pt → n.tables t j ≡ m.tables t j
  pub lack : Short (li.t_npg + (li.id_npg + li.ud_npg + stack_npg args)) m

-- A page in one of the three segments is mapped.
pub record Built ⦃hw : Hardware⦄ (pt : ℕ) (li : LoadInfo) (args : List (List ℕ)) (m n : Memory)
    : Type 0 where
  pub text :
      (j : ℕ)
      → text_page li ≤ j
      → j < text_page li + li.t_npg
      → ((n.tables pt j).valid ≡ true) × ((n.tables pt j).prot ≡ prot_rw)
  pub bytes :
      (j : ℕ)
      → data_page li ≤ j
      → j < data_page li + (li.id_npg + li.ud_npg)
      → ((n.tables pt j).valid ≡ true) × ((n.tables pt j).prot ≡ prot_rw)
  pub stack :
      (j : ℕ)
      → stack_base_page_of args ≤ j
      → j < hw.max_pt_len
      → ((n.tables pt j).valid ≡ true) × ((n.tables pt j).prot ≡ prot_rw)
  pub gaps :
      (j : ℕ)
      → j < hw.max_pt_len
      → (j < text_page li) ⊎ (text_page li + li.t_npg ≤ j)
      → (j < data_page li) ⊎ (data_page li + (li.id_npg + li.ud_npg) ≤ j)
      → j < stack_base_page_of args
      → (n.tables pt j).valid ≡ false
  pub others : (t j : ℕ) → t ≢ pt → n.tables t j ≡ m.tables t j
  pub isolated : IsIsolated n

-- Where the three calls end.
unfoldable pub Mappings :
    ⦃hw : Hardware⦄ (pt : ℕ) → LoadInfo → List (List ℕ) → Memory → Bool × Memory → Type 0
Mappings pt li args m (true, n) = Built pt li args m n
Mappings pt li args m (false, n) = Broken pt li args m n
