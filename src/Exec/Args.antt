-- ===== src/Exec/Args.antt =====
-- The argument vector that LoadProgram builds (src/template.c), read back by CopyExecArgs
-- (src/syscalls.c).
use yalnix.Base.{
  ℕ, zero, suc, ◌+◌, ◌-◌, ◌*◌, ◌/◌, ◌%◌, ◌^◌, ◌≤◌, ◌<◌, ◌≡◌, refl, ap, ◌∙◌, ◌≢◌, ◌⊎◌, inl, inr,
  true, false, List, [], ◌∷◌, ◌==◌, arith, All, leb, ltb, length, pos, store_int, copy,
}
use yalnix.Hardware.{Hardware}
use yalnix.Loader.{char_at, arg_size, put_args, strings_start, frame_start, build_stack, clear}
use yalnix.Exec.{load_word, string_at}

-- The bytes of a word, put together again.
join_bytes :
    (w : ℕ)
    → w < 2 ^ 32
    → w % 2 ^ 32 % 256
        + 256 * (w % 2 ^ 32 / 256 % 256)
        + 65_536 * (w % 2 ^ 32 / 65_536 % 256)
        + 16_777_216 * (w % 2 ^ 32 / 16_777_216)
      ≡ w
join_bytes w lt = omega arith

words :
    {a0 a1 a2 a3 b0 b1 b2 b3 : ℕ}
    → a0 ≡ b0
    → a1 ≡ b1
    → a2 ≡ b2
    → a3 ≡ b3
    → a0 + 256 * a1 + 65_536 * a2 + 16_777_216 * a3 ≡ b0 + 256 * b1 + 65_536 * b2 + 16_777_216 * b3
words p q r s = omega (arith, p, q, r, s)

-- A pointer that was stored is read back.
load_word-store_int :
    (a v : ℕ) (space : ℕ → ℕ) → v < 2 ^ 32 → load_word a (store_int a (pos v) space) ≡ v
load_word-store_int a v space lt =
    let at0 : store_int a (pos v) space a ≡ v % 2 ^ 32 % 256 = ground arith in
    let at1 : store_int a (pos v) space (a + 1) ≡ v % 2 ^ 32 / 256 % 256 = ground arith in
    let at2 : store_int a (pos v) space (a + 2) ≡ v % 2 ^ 32 / 65_536 % 256 = ground arith in
    let at3 : store_int a (pos v) space (a + 3) ≡ v % 2 ^ 32 / 16_777_216 = ground arith in
    words (at0) at1 at2 at3 ∙ join_bytes v lt

store_int-outside :
    (a v x : ℕ) (space : ℕ → ℕ) → (x < a) ⊎ (a + 4 ≤ x) → store_int a (pos v) space x ≡ space x
store_int-outside a v x space off = ground arith

pub copy-outside :
    (dst : ℕ → ℕ) (d : ℕ) (src : ℕ → ℕ) (n x : ℕ)
    → (x < d) ⊎ (d + n ≤ x)
    → copy dst d src 0 n x ≡ dst x
copy-outside dst d src n x off = ground arith

pub copy-inside :
    (dst : ℕ → ℕ) (d : ℕ) (src : ℕ → ℕ) (n i : ℕ) → i < n → copy dst d src 0 n (d + i) ≡ src i
copy-inside dst d src n i lt =
    let a : d + i - d ≡ i = omega arith in
    let b : 0 + i ≡ i = omega arith in
    let c : leb d (d + i) ≡ true = ground arith in
    let e : ltb (d + i) (d + n) ≡ true = ground arith in rw (a, c, e) (rw b refl)

-- The strings have no byte 0 inside.
abbrev pub IsText : List ℕ → Type 0
IsText s = All (λ c. c ≢ 0) s

string_at-finds :
    (left a : ℕ) (s : List ℕ) (space : ℕ → ℕ)
    → length s < left
    → IsText s
    → ((i : ℕ) → i ≤ length s → space (a + i) ≡ char_at s i)
    → string_at left a space ≡ s
unfolding string_at
string_at-finds zero a s space lt t h = absurd (omega arith)
string_at-finds (suc left) a [] space lt t h =
    let e : a + 0 ≡ a = omega arith in
    let z : space a ≡ 0 = rw e at (h 0 (omega arith)) in rw z refl
string_at-finds (suc left) a (c ∷ s) space lt t h =
    let e : a + 0 ≡ a = omega arith in
    let z : space a ≡ c = rw e at (h 0 (omega arith)) in
    let nz : (c == 0) ≡ false = ground (arith, t.0) in
    rw (z, nz)
      (ap (◌∷◌ c) (
        string_at-finds left (a + 1) s space (omega arith) t.1
          (λ i l. let f : a + 1 + i ≡ a + suc i = omega arith in rw f (h (suc i) (omega arith)))))

-- What the loop that writes the arguments leaves alone.
put_args-outside :
    (ss : List (List ℕ)) (cp cpp : ℕ) (space : ℕ → ℕ) (x : ℕ)
    → (x < cpp) ⊎ (cpp + 4 * (length ss + 2) ≤ x)
    → (x < cp) ⊎ (cp + arg_size ss ≤ x)
    → put_args ss cp cpp space x ≡ space x
unfolding put_args
put_args-outside [] cp cpp space x a b =
    store_int-outside (cpp + 4) 0 x (store_int cpp (pos 0) space) (omega arith)
    ∙ store_int-outside cpp 0 x space (omega arith)
put_args-outside (s ∷ ss) cp cpp space x a b =
    put_args-outside ss (cp + (length s + 1)) (cpp + 4)
      (copy (store_int cpp (pos cp) space) cp (char_at s) 0 (length s + 1)) x (omega arith)
      (omega arith)
    ∙ copy-outside (store_int cpp (pos cp) space) cp (char_at s) (length s + 1) x (omega arith)
    ∙ store_int-outside cpp cp x space (omega arith)

-- The argument vector at `a` holds the strings `ss`.
unfoldable pub Holds : ⦃hw : Hardware⦄ → List (List ℕ) → (a : ℕ) → (ℕ → ℕ) → Type 0
Holds [] a space = load_word a space ≡ 0
Holds ⦃hw = hw⦄ (s ∷ ss) a space =
    (load_word a space ≢ 0)
    × (string_at (hw.vmem_1_limit - load_word a space) (load_word a space) space ≡ s)
    × Holds ss (a + 4) space

load_word-same :
    (a : ℕ) (f g : ℕ → ℕ)
    → ((x : ℕ) → a ≤ x → x < a + 4 → f x ≡ g x)
    → load_word a f ≡ load_word a g
load_word-same a f g h =
    words (h a (omega arith) (omega arith)) (h (a + 1) (omega arith) (omega arith))
      (h (a + 2) (omega arith) (omega arith)) (h (a + 3) (omega arith) (omega arith))

module _ ⦃hw : Hardware⦄ where
  put_args-Holds :
      (ss : List (List ℕ)) (cp cpp : ℕ) (space : ℕ → ℕ)
      → cpp + 4 * (length ss + 2) ≤ cp
      → cp + arg_size ss ≤ hw.vmem_1_limit
      → hw.vmem_1_limit < 2 ^ 32
      → All IsText ss
      → Holds ss cpp (put_args ss cp cpp space)
  unfolding put_args Holds
  put_args-Holds [] cp cpp space below fits small t =
      load_word-same cpp (store_int (cpp + 4) (pos 0) (store_int cpp (pos 0) space))
        (store_int cpp (pos 0) space)
        (λ x a b. store_int-outside (cpp + 4) 0 x (store_int cpp (pos 0) space) (inl b))
      ∙ load_word-store_int cpp 0 space (omega arith)
  put_args-Holds (s ∷ ss) cp cpp space below fits small t =
      let mid = copy (store_int cpp (pos cp) space) cp (char_at s) 0 (length s + 1) in
      let out = put_args ss (cp + (length s + 1)) (cpp + 4) mid in
      let word : load_word cpp out ≡ cp =
        load_word-same cpp out (store_int cpp (pos cp) space) (λ x a b.
          put_args-outside ss (cp + (length s + 1)) (cpp + 4) mid x (inl b) (inl (omega arith))
          ∙ copy-outside (store_int cpp (pos cp) space) cp (char_at s) (length s + 1) x
              (inl (omega arith)))
        ∙ load_word-store_int cpp cp space (omega arith) in
      let found : string_at (hw.vmem_1_limit - cp) cp out ≡ s =
        string_at-finds (hw.vmem_1_limit - cp) cp s out (omega arith) t.0 (λ i l.
          put_args-outside ss (cp + (length s + 1)) (cpp + 4) mid (cp + i) (inr (omega arith))
            (inl (omega arith))
          ∙ copy-inside (store_int cpp (pos cp) space) cp (char_at s) (length s + 1) i
              (omega arith)) in
      (
        (λ e. absurd (omega (arith, word, e))),
        rw word found,
        put_args-Holds ss _ (cpp + 4) mid (omega arith) (omega arith) small t.1,
      )

  -- The stack that LoadProgram builds has room, and its words have 32 bits.
  abbrev pub Roomy : List (List ℕ) → Type 0
  Roomy args =
      (arg_size args + (length args + 3 + hw.post_argv_null_space) * 4 + 8 ≤ hw.vmem_1_limit)
      × (hw.vmem_1_limit < 2 ^ 32)

  pub build_stack-Holds :
      (args : List (List ℕ)) (space : ℕ → ℕ)
      → Roomy args
      → All IsText args
      → Holds args (frame_start args + 4) (build_stack args space)
  unfolding build_stack
  build_stack-Holds args space room t =
      put_args-Holds args (strings_start args) (frame_start args + 4) _ (omega arith) (omega arith)
        room.1 t

  -- Below the argument count nothing is written.
  pub build_stack-below :
      (args : List (List ℕ)) (space : ℕ → ℕ) (x : ℕ)
      → Roomy args
      → x < frame_start args
      → build_stack args space x ≡ space x
  unfolding build_stack
  build_stack-below args space x room lt =
      let base = frame_start args in
      let cleared = clear base (hw.vmem_1_limit - base) space in
      put_args-outside args (strings_start args) (base + 4)
        (store_int base (pos (length args)) cleared) x (omega arith) (omega arith)
      ∙ store_int-outside base (length args) x cleared (inl lt)
      ∙ ground arith

  -- The argument count stands below the vector.
  pub build_stack-count :
      (args : List (List ℕ)) (space : ℕ → ℕ)
      → Roomy args
      → length args < 2 ^ 32
      → load_word (frame_start args) (build_stack args space) ≡ length args
  unfolding build_stack
  build_stack-count args space room lt =
      let base = frame_start args in
      let below = store_int base (pos (length args)) (clear base (hw.vmem_1_limit - base) space) in
      load_word-same base (put_args args (strings_start args) (base + 4) below) below (λ x a b.
        put_args-outside args (strings_start args) (base + 4) below x (inl b) (inl (omega arith)))
      ∙ load_word-store_int base (length args) (clear base (hw.vmem_1_limit - base) space) lt
