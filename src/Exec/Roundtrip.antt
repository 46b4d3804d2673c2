-- ===== src/Exec/Roundtrip.antt =====
-- CopyExecArgs of src/syscalls.c gives back the arguments of an argument vector.
use yalnix.Base.{
  ℕ, zero, suc, ◌+◌, ◌-◌, ◌*◌, ◌<◌, ◌≡◌, refl, ap, ◌∙◌, ◌≢◌, Bool, true, false, some, List, [], ◌∷◌,
  ◌==◌, arith, All, length,
}
use yalnix.Hardware.{Hardware}
use yalnix.Loader.{frame_start, build_stack}
use yalnix.Exec.{
  load_word, string_at, count_args, kernel_str_dup, copy_args, copy_vector, copy_exec_args,
}
use yalnix.Exec.Args.{Holds, IsText, Roomy, build_stack-Holds}

module _ ⦃hw : Hardware⦄ (argvec : ℕ) (space : ℕ → ℕ) where
  count_args-Holds :
      (ss : List (List ℕ)) (left argc : ℕ)
      → length ss < left
      → Holds ss (argvec + 4 * argc) space
      → count_args left argc argvec space ≡ argc + length ss
  unfolding count_args Holds
  count_args-Holds ss zero argc lt h = absurd (omega arith)
  count_args-Holds [] (suc left) argc lt h = rw h (omega arith)
  count_args-Holds (s ∷ ss) (suc left) argc lt h =
      let nz : (load_word (argvec + 4 * argc) space == 0) ≡ false = ground (arith, h.0) in
      let next : argvec + 4 * argc + 4 ≡ argvec + 4 * (argc + 1) = omega arith in
      rw nz (count_args-Holds ss left (argc + 1) (omega arith) (rw next at h.2) ∙ omega arith)

  module _ (allocs : ℕ → Bool) (enough : (n : ℕ) → allocs n ≡ true) where
    kernel_str_dup-some :
        (n a : ℕ)
        → a ≢ 0
        → kernel_str_dup (allocs n) a space ≡ some (string_at (hw.vmem_1_limit - a) a space)
    unfolding kernel_str_dup
    kernel_str_dup-some n a nz =
        let live : (a == 0) ≡ false = ground (arith, nz) in rw (live, enough n) refl

    copy_args-next :
        (left i : ℕ) (s : List ℕ) (ss : List (List ℕ))
        → kernel_str_dup (allocs (i + 2)) (load_word (argvec + 4 * i) space) space ≡ some s
        → copy_args allocs left (i + 1) argvec space ≡ some ss
        → copy_args allocs (suc left) i argvec space ≡ some (s ∷ ss)
    unfolding copy_args
    copy_args-next left i s ss e r = rw (copy_args, e) (rw r refl)

    copy_args-Holds :
        (ss : List (List ℕ)) (i : ℕ)
        → Holds ss (argvec + 4 * i) space
        → copy_args allocs (length ss) i argvec space ≡ some ss
    unfolding copy_args Holds
    copy_args-Holds [] i h = refl
    copy_args-Holds (s ∷ ss) i h =
        let next : argvec + 4 * i + 4 ≡ argvec + 4 * (i + 1) = omega arith in
        copy_args-next (length ss) i s ss
          (kernel_str_dup-some (i + 2) (load_word (argvec + 4 * i) space) h.0 ∙ ap some h.1)
          (copy_args-Holds ss (i + 1) (rw next at h.2))

    copy_vector-some :
        (name : List ℕ) (ss : List (List ℕ))
        → length ss < 64
        → Holds ss argvec space
        → copy_vector allocs name argvec space ≡ some (name, ss)
    copy_vector-some name ss lt h =
        let base : argvec ≡ argvec + 4 * 0 = omega arith in
        let count : count_args 64 0 argvec space ≡ length ss =
          count_args-Holds ss 64 0 lt (rw base at h) ∙ omega arith in
        let few : (length ss == 64) ≡ false = ground arith in
        let all : copy_args allocs (length ss) 0 argvec space ≡ some ss =
          copy_args-Holds ss 0 (rw base at h) in
        rw count (rw (few, enough 1) (rw all refl))

    copy_exec_args-some :
        (filename : ℕ) (ss : List (List ℕ))
        → filename ≢ 0
        → argvec ≢ 0
        → length ss < 64
        → Holds ss argvec space
        → copy_exec_args allocs filename argvec space
          ≡ some (string_at (hw.vmem_1_limit - filename) filename space, ss)
    unfolding copy_exec_args
    copy_exec_args-some filename ss live vector lt h =
        let v : (argvec == 0) ≡ false = ground (arith, vector) in
        rw (copy_exec_args, kernel_str_dup-some 0 filename live) (rw v (copy_vector-some _ ss lt h))

module _ ⦃hw : Hardware⦄ (allocs : ℕ → Bool) where
  -- Fewer than 64 arguments, without a byte 0 inside, that fit below the end of region 1: if malloc
  -- does not fail, CopyExecArgs reads the arguments that LoadProgram wrote to the stack of a program back from
  -- there, every one and in order, with the name that it is given.
  pub copy_exec_args-build_stack :
      (args : List (List ℕ)) (space : ℕ → ℕ) (filename : ℕ)
      → ((n : ℕ) → allocs n ≡ true)
      → Roomy args
      → All IsText args
      → length args < 64
      → filename ≢ 0
      → copy_exec_args allocs filename (frame_start args + 4) (build_stack args space)
        ≡ some (string_at (hw.vmem_1_limit - filename) filename (build_stack args space), args)
  copy_exec_args-build_stack args space filename enough room t lt live =
      copy_exec_args-some (frame_start args + 4) (build_stack args space) allocs enough filename
        args live (omega arith) lt (build_stack-Holds args space room t)
