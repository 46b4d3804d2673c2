-- ===== src/Base/Int.antt =====
-- C's `int` as an integer: `negsuc n` is -(n + 1). The arguments of system calls and the results
-- of kernel functions are such integers.
use Prim.Native.Nat.{ℕ, ◌+◌, ◌-◌, ◌%◌, ◌/◌, ◌^◌}
use yalnix.Base.Tests.{leb, ltb, ◌==◌, if◌then◌else◌}
use mathlib.Core.Bool.{◌&&◌}
use mathlib.Core.Bool.{Bool, true, false}

pub data ℤ : Type 0 where
  pos : ℕ → ℤ
  negsuc : ℕ → ℤ

abbrev pub is_neg : ℤ → Bool
is_neg (pos n) = false
is_neg (negsuc n) = true

-- The value of an `int` that is known not to be negative.
abbrev pub to_ℕ : ℤ → ℕ
to_ℕ (pos n) = n
to_ℕ (negsuc n) = 0

-- The 32-bit pattern of an `int`.
abbrev pub pattern_of : ℤ → ℕ
pattern_of (pos n) = n % 2 ^ 32
pattern_of (negsuc n) = 2 ^ 32 - 1 - n % 2 ^ 32

-- The `int` of a 32-bit pattern.
abbrev pub int_of : ℕ → ℤ
int_of w = if ltb w (2 ^ 31) then pos w else negsuc (2 ^ 32 - w - 1)

-- `a <= b` of two `int`s, by their patterns.
abbrev pub signed_leb : ℕ → ℕ → Bool
signed_leb a b = leb ((a + 2 ^ 31) % 2 ^ 32) ((b + 2 ^ 31) % 2 ^ 32)

-- memcpy(dst + d, src + s, n), of a block that does not overlap itself.
abbrev pub copy : (dst : ℕ → ℕ) (d : ℕ) (src : ℕ → ℕ) (s n : ℕ) → ℕ → ℕ
copy dst d src s n i = if leb d i && ltb i (d + n) then src (s + (i - d)) else dst i

-- `*a = v`, four bytes from the lowest on.
abbrev pub store_int : (a : ℕ) → ℤ → (ℕ → ℕ) → ℕ → ℕ
store_int a v space i =
    let w = pattern_of v in
    if i == a
    then w % 256
    else if i == a + 1
    then w / 256 % 256
    else if i == a + 2
    then w / 65_536 % 256
    else if i == a + 3
    then w / 16_777_216
    else space i
