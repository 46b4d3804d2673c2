-- ===== src/Base/Bytes.antt =====
-- The bytes of an array from an offset on, as a list, and what memcpy does to them.
use Prim.Native.Nat.{ℕ, zero, suc, ◌+◌, ◌-◌, ◌<◌}
use mathlib.Core.Path.{◌≡◌, refl, ap, ap₂}
use mathlib.Core.List.{List, [], ◌∷◌, ◌++◌}
use native.Mathlib.Omega.{arith}
use yalnix.Base.Int.{copy}

pub bytes : (ℕ → ℕ) → (off n : ℕ) → List ℕ
bytes f off zero = []
bytes f off (suc n) = f off ∷ bytes f (off + 1) n

pub bytes-append :
    (f : ℕ → ℕ) (off a b : ℕ) → bytes f off (a + b) ≡ bytes f off a ++ bytes f (off + a) b
unfolding bytes
bytes-append f off zero b = ap₂ (λ o n. bytes f o n) (omega arith) (omega arith)
bytes-append f off (suc a) b =
    let e : suc a + b ≡ suc (a + b) = omega arith in
    let o : off + 1 + a ≡ off + suc a = omega arith in
    rw (e, ← o) (ap (◌∷◌ (f off)) (bytes-append f (off + 1) a b))

-- The two ranges hold the same.
pub bytes-shift :
    (f g : ℕ → ℕ) (o p n : ℕ)
    → ((i : ℕ) → i < n → f (o + i) ≡ g (p + i))
    → bytes f o n ≡ bytes g p n
unfolding bytes
bytes-shift f g o p zero h = refl
bytes-shift f g o p (suc n) h =
    ap₂ ◌∷◌
      (let a : o + 0 ≡ o = omega arith in
        let b : p + 0 ≡ p = omega arith in rw (a, b) at (h 0 (omega arith)))
      (bytes-shift f g (o + 1) (p + 1) n λ i lt.
        let a : o + 1 + i ≡ o + (i + 1) = omega arith in
        let b : p + 1 + i ≡ p + (i + 1) = omega arith in rw (a, b) (h (i + 1) (omega arith)))

-- What was copied, and what stands before it.
pub bytes-copy :
    (dst : ℕ → ℕ) (d : ℕ) (src : ℕ → ℕ) (s n : ℕ) → bytes (copy dst d src s n) d n ≡ bytes src s n
bytes-copy dst d src s n =
    bytes-shift (copy dst d src s n) src d s n
      λ i lt. let e : d + i - d ≡ i = omega arith in ground arith

pub bytes-copy_before :
    (dst : ℕ → ℕ) (d : ℕ) (src : ℕ → ℕ) (s n : ℕ) → bytes (copy dst d src s n) 0 d ≡ bytes dst 0 d
bytes-copy_before dst d src s n = bytes-shift (copy dst d src s n) dst 0 0 d λ i lt. ground arith
