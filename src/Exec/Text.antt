-- ===== src/Exec/Text.antt =====
-- What CopyExecArgs of src/syscalls.c copies: fewer than 64 strings without a byte 0 inside.
use yalnix.Base.{
  ℕ, zero, suc, ◌+◌, ◌-◌, ◌*◌, ◌≤◌, ◌<◌, ◌≡◌, refl, ap, inl, inr, Bool, not, ◌||◌, Option, none,
  some, List, [], ◌∷◌, ◌==◌, arith, All, length, Bool-cases, if◌then◌else◌,
}
use yalnix.Hardware.{Hardware}
use yalnix.Exec.{
  load_word, string_at, count_args, kernel_str_dup, copy_args, cons_some, copy_vector, copy_name,
  copy_exec_args,
}
use yalnix.Exec.Args.{IsText}

string_at-IsText : (left a : ℕ) (space : ℕ → ℕ) → IsText (string_at left a space)
unfolding string_at
string_at-IsText zero a space = tt
string_at-IsText (suc left) a space = elim (Bool-cases (space a == 0)) [
  | inl end ↦ rw end tt
  | inr more ↦ rw more (ground (arith, more), string_at-IsText left (a + 1) space)
]

count_args-few :
    (left argc argvec : ℕ) (space : ℕ → ℕ) → count_args left argc argvec space ≤ argc + left
unfolding count_args
count_args-few zero argc argvec space = omega arith
count_args-few (suc left) argc argvec space =
    let rest = count_args-few left (argc + 1) argvec space in
    elim (Bool-cases (load_word (argvec + 4 * argc) space == 0)) [
      | inl end ↦ rw end (omega arith)
      | inr more ↦ rw more (omega (arith, rest))
    ]

-- Fewer than 64 strings, none with a byte 0 inside.
abbrev pub Copied : List (List ℕ) → Type 0
Copied args = All IsText args × (length args < 64)

-- The same of a copy that may have failed.
abbrev OrNone : (n : ℕ) → Option (List (List ℕ)) → Type 0
OrNone n none = Unit
OrNone n (some args) = All IsText args × (length args ≡ n)

abbrev pub OrFailed : Option (List ℕ × List (List ℕ)) → Type 0
OrFailed none = Unit
OrFailed (some r) = Copied r.1

module _ ⦃hw : Hardware⦄ where
  abbrev TextOrNone : Option (List ℕ) → Type 0
  TextOrNone none = Unit
  TextOrNone (some s) = IsText s

  dup-Text : (ok : Bool) (a : ℕ) (space : ℕ → ℕ) → TextOrNone (kernel_str_dup ok a space)
  unfolding kernel_str_dup
  dup-Text ok a space = elim (Bool-cases (a == 0 || not ok)) [
    | inl no_copy ↦ rw no_copy tt
    | inr copied ↦ rw copied (string_at-IsText (hw.vmem_1_limit - a) a space)
  ]

  joined :
      (n : ℕ) (o : Option (List ℕ)) (rest : Option (List (List ℕ)))
      → TextOrNone o
      → OrNone n rest
      → OrNone (suc n) (elim o [ none ↦ none | some s ↦ cons_some s rest ])
  joined n none rest t r = tt
  joined n (some s) none t r = tt
  joined n (some s) (some ss) t r = ((t, r.0), ap suc r.1)

  copy_args-OrNone :
      (allocs : ℕ → Bool) (left i argvec : ℕ) (space : ℕ → ℕ)
      → OrNone left (copy_args allocs left i argvec space)
  unfolding copy_args
  copy_args-OrNone allocs zero i argvec space = (tt, refl)
  copy_args-OrNone allocs (suc left) i argvec space =
      joined left (kernel_str_dup (allocs (i + 2)) (load_word (argvec + 4 * i) space) space)
        (copy_args allocs left (i + 1) argvec space)
        (dup-Text (allocs (i + 2)) (load_word (argvec + 4 * i) space) space)
        (copy_args-OrNone allocs left (i + 1) argvec space)

  named :
      (n : ℕ) (name : List ℕ) (o : Option (List (List ℕ)))
      → n < 64
      → OrNone n o
      → OrFailed (elim o [ none ↦ none | some args ↦ some (name, args) ])
  named n name none few r = tt
  named n name (some args) few r = (r.0, omega (arith, r.1))

  vector-OrFailed :
      (allocs : ℕ → Bool) (name : List ℕ) (argvec : ℕ) (space : ℕ → ℕ)
      → OrFailed (copy_vector allocs name argvec space)
  vector-OrFailed allocs name argvec space =
      let n = count_args 64 0 argvec space in
      let few = count_args-few 64 0 argvec space in
      elim (Bool-cases (n == 64 || not (allocs 1))) [
        | inl bad ↦ rw bad tt
        | inr good ↦ rw good (
            named n name (copy_args allocs n 0 argvec space) (ground (arith, good, few))
              (copy_args-OrNone allocs n 0 argvec space))
      ]

  only :
      (name : List ℕ) (o : Option (List ℕ))
      → TextOrNone o
      → OrFailed (elim o [ none ↦ none | some s ↦ some (name, s ∷ []) ])
  only name none t = tt
  only name (some s) t = ((t, tt), omega arith)

  name-OrFailed :
      (allocs : ℕ → Bool) (name : List ℕ) (filename : ℕ) (space : ℕ → ℕ)
      → OrFailed (copy_name allocs name filename space)
  name-OrFailed allocs name filename space = elim (Bool-cases (not (allocs 1))) [
    | inl bad ↦ rw bad tt
    | inr good ↦
        rw good (
          only name (kernel_str_dup (allocs 2) filename space) (dup-Text (allocs 2) filename space))
  ]

  with_name :
      (allocs : ℕ → Bool) (filename argvec : ℕ) (space : ℕ → ℕ) (o : Option (List ℕ))
      → OrFailed (elim o [
        | none ↦ none
        | some name ↦
            if argvec == 0
            then copy_name allocs name filename space
            else copy_vector allocs name argvec space
      ])
  with_name allocs filename argvec space none = tt
  with_name allocs filename argvec space (some name) = elim (Bool-cases (argvec == 0)) [
    | inl null ↦ rw null (name-OrFailed allocs name filename space)
    | inr given ↦ rw given (vector-OrFailed allocs name argvec space)
  ]

  pub copy_exec_args-OrFailed :
      (allocs : ℕ → Bool) (filename argvec : ℕ) (space : ℕ → ℕ)
      → OrFailed (copy_exec_args allocs filename argvec space)
  unfolding copy_exec_args
  copy_exec_args-OrFailed allocs filename argvec space =
      with_name allocs filename argvec space (kernel_str_dup (allocs 0) filename space)
