-- ===== src/Ipc/Pipe/Capacity.antt =====
-- PipeEnsureCapacity: its loop ends for every length up to 2^30, and for none above.
use yalnix.Base.{
  ℕ, zero, suc, ◌*◌, ◌%◌, ◌^◌, ◌≤◌, ◌<◌, ◌≡◌, refl, ◌⊎◌, inl, inr, Bool, true, false, Option, none,
  some, arith, leb, signed_leb, Bool-cases,
}
use native.Mathlib.Nat.{pow-succ', mul_assoc}
use yalnix.State.{PipeState}
use yalnix.Ipc.Pipe.{
  double_until, doubling_fuel, Ensured, roomy, no_memory, no_end, enlarge, pipe_ensure_capacity,
}

signed_leb-le : (a b : ℕ) → a < 2 ^ 31 → b < 2 ^ 31 → signed_leb a b ≡ leb a b
signed_leb-le a b ha hb = ground arith

-- What the loop stops at: no less than needed, and less than twice that if it doubled at all.
abbrev pub Stops : (c needed : ℕ) → Option ℕ → Type 0
Stops c needed none = ⊥
Stops c needed (some r) = (needed ≤ r) × (r < 2 ^ 31) × ((r ≡ c) ⊎ (r < 2 * needed))

Stops-double :
    (c needed : ℕ) (o : Option ℕ) → c < needed → Stops (c * 2) needed o → Stops c needed o
Stops-double c needed none short s = s
Stops-double c needed (some r) short s = ground arith

doubled : (c f needed : ℕ) → needed ≤ c * 2 ^ suc f → needed ≤ c * 2 * 2 ^ f
doubled c f needed h = rw (pow-succ', ← mul_assoc) at h

-- From `c` on, `fuel` doublings reach what is needed.
double_until-Stops :
    (fuel c needed : ℕ)
    → c < 2 ^ 31
    → needed ≤ 2 ^ 30
    → needed ≤ c * 2 ^ fuel
    → Stops c needed (double_until (suc fuel) c needed)
unfolding double_until
double_until-Stops zero c needed small fits reach =
    let enough : leb needed c ≡ true = ground arith in
    rw (signed_leb-le needed c (omega arith) small) (rw enough (omega arith, small, inl refl))
double_until-Stops (suc fuel) c needed small fits reach =
    rw (signed_leb-le needed c (omega arith) small) (elim (Bool-cases (leb needed c)) [
      | inl enough ↦ rw enough (ground arith, small, inl refl)
      | inr short ↦
          let lt : c < needed = ground arith in
          let whole : c * 2 % 2 ^ 32 ≡ c * 2 = omega arith in
          let rest =
            double_until-Stops fuel (c * 2) needed (omega arith) fits
              (doubled c fuel needed reach) in
          rw (short, whole) (Stops-double c needed (double_until (suc fuel) (c * 2) needed) lt rest)
    ])

-- The room of the pipe that PipeEnsureCapacity leaves: enough, with what the pipe held.
abbrev pub Roomy : Bool → PipeState → (needed : ℕ) → Ensured → Type 0
Roomy ok p needed (roomy q) =
    (needed ≤ q.cap)
    × (p.cap ≤ q.cap)
    × (q.cap < 2 ^ 31)
    × (q.len ≡ p.len)
    × (q.readers ≡ p.readers)
    × ((i : ℕ) → i < p.len → q.buf i ≡ p.buf i)
Roomy ok p needed no_memory = (ok ≡ false) × (p.cap < needed)
Roomy ok p needed no_end = ⊥

-- For up to 2^30 bytes PipeEnsureCapacity ends; unless `malloc` fails it leaves room for them and
-- keeps the pipe's bytes, length and readers.
pub pipe_ensure_capacity-Roomy :
    (malloc_ok : Bool) (p : PipeState) (needed : ℕ)
    → 0 < p.cap
    → p.cap < 2 ^ 31
    → needed ≤ 2 ^ 30
    → Roomy malloc_ok p needed (pipe_ensure_capacity malloc_ok p needed)
unfolding pipe_ensure_capacity
pipe_ensure_capacity-Roomy malloc_ok p needed some_room small fits =
    rw (signed_leb-le needed p.cap (omega arith) small) (elim (Bool-cases (leb needed p.cap)) [
      | inl enough ↦ rw enough (ground arith, omega arith, small, refl, refl, λ i h. refl)
      | inr short ↦ rw short (
          enlarged malloc_ok (double_until doubling_fuel p.cap needed) (ground arith)
            (double_until-Stops 31 p.cap needed small fits (omega arith)))
    ])
  where
    enlarged :
        (ok : Bool) (o : Option ℕ)
        → p.cap < needed
        → Stops p.cap needed o
        → Roomy ok p needed (enlarge ok p o)
    enlarged ok none lt s = s
    enlarged true (some r) lt s = (s.0, omega arith, s.1, refl, refl, λ i h. ground arith)
    enlarged false (some r) lt s = (refl, lt)

-- A capacity that has wrapped to zero stays there.
double_until-zero :
    (fuel needed : ℕ) → 0 < needed → needed < 2 ^ 31 → double_until fuel 0 needed ≡ none
unfolding double_until
double_until-zero zero needed pos_n small = refl
double_until-zero (suc fuel) needed pos_n small =
    let short : signed_leb needed 0 ≡ false = ground arith in
    rw short (double_until-zero fuel needed pos_n small)

double_until-negative :
    (fuel needed : ℕ) → 0 < needed → needed < 2 ^ 31 → double_until fuel (2 ^ 31) needed ≡ none
unfolding double_until
double_until-negative zero needed pos_n small = refl
double_until-negative (suc fuel) needed pos_n small =
    let short : signed_leb needed (2 ^ 31) ≡ false = ground arith in
    rw short (double_until-zero fuel needed pos_n small)

halved : (c j : ℕ) → c * 2 ^ suc j ≡ 2 ^ 30 → c * 2 * 2 ^ j ≡ 2 ^ 30
halved c j h = rw (pow-succ', ← mul_assoc) at h

at_most : (c j : ℕ) → c * 2 ^ j ≡ 2 ^ 30 → c ≤ 2 ^ 30
at_most c zero h = omega arith
at_most c (suc j) h = omega (arith, at_most (c * 2) j (halved c j h))

-- For more than 2^30 bytes, and a capacity `c` that some doublings make 2^30, the loop of
-- PipeEnsureCapacity does not end within any fuel: the capacity overflows, to a negative number and
-- then to zero.
pub double_until-none :
    (fuel c j needed : ℕ)
    → c * 2 ^ j ≡ 2 ^ 30
    → 2 ^ 30 < needed
    → needed < 2 ^ 31
    → double_until fuel c needed ≡ none
unfolding double_until
double_until-none zero c j needed e big small = refl
double_until-none (suc fuel) c zero needed e big small =
    let at_top : c ≡ 2 ^ 30 = omega arith in
    let short : signed_leb needed (2 ^ 30) ≡ false = ground arith in
    rw (at_top, short) (double_until-negative fuel needed (omega arith) small)
double_until-none (suc fuel) c (suc j) needed e big small =
    let e' = halved c j e in
    let fits = at_most (c * 2) j e' in
    let short : signed_leb needed c ≡ false = ground arith in
    let whole : c * 2 % 2 ^ 32 ≡ c * 2 = omega arith in
    rw (short, whole) (double_until-none fuel (c * 2) j needed e' big small)
