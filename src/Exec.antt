-- ===== src/Exec.antt =====
-- SysExec of src/syscalls.c, and the copies that it makes of the file's name and of the arguments.
-- `allocs n` is whether the n-th call of malloc or calloc succeeds, and `files` is what LoadProgram
-- finds under a name. A string ends before the end of region 1: strlen of any other is undefined.
-- FreeExecArgs gives the copies back to malloc, which is not followed.
pub mod Args
pub mod Roundtrip
pub mod Program
pub mod Promise
pub mod Text
pub mod Execed
mod Tests
use yalnix.Base.{
  ℕ, zero, suc, ◌+◌, ◌-◌, ◌*◌, ◌/◌, ◌^◌, Bool, true, false, not, ◌&&◌, ◌||◌, Option, none, some,
  List, [], ◌∷◌, ◌==◌, if◌then◌else◌,
}
use yalnix.Hardware.{Hardware}
use yalnix.State.{Kernel, error, success}
use yalnix.Ipc.{Outcome, returned, switched, no_process}
use yalnix.Life.{process_exit_current}
use yalnix.Loader.{File, Loaded, loaded, failed, killed, load_program}

-- A pointer, or an `unsigned int`, at an address.
abbrev pub load_word : (a : ℕ) → (ℕ → ℕ) → ℕ
load_word a space =
    space a + 256 * space (a + 1) + 65_536 * space (a + 2) + 16_777_216 * space (a + 3)

-- The string at an address, within `left` bytes.
pub string_at : (left a : ℕ) → (ℕ → ℕ) → List ℕ
string_at zero a space = []
string_at (suc left) a space =
    let rest = string_at left (a + 1) space in if space a == 0 then [] else space a ∷ rest

-- The loop that counts the arguments: at most 64, of which `left` are ahead.
pub count_args : (left argc argvec : ℕ) → (ℕ → ℕ) → ℕ
count_args zero argc argvec space = argc
count_args (suc left) argc argvec space =
    if load_word (argvec + 4 * argc) space == 0
    then argc
    else count_args left (argc + 1) argvec space

abbrev cons_some : List ℕ → Option (List (List ℕ)) → Option (List (List ℕ))
cons_some s none = none
cons_some s (some ss) = some (s ∷ ss)

module _ ⦃hw : Hardware⦄ where
  pub kernel_str_dup : (malloc_ok : Bool) (src : ℕ) → (ℕ → ℕ) → Option (List ℕ)
  kernel_str_dup malloc_ok src space =
      if src == 0 || not malloc_ok then none else some (string_at (hw.vmem_1_limit - src) src space)

  -- The loop that copies the arguments, from argument `i` on.
  pub copy_args : (allocs : ℕ → Bool) (left i argvec : ℕ) → (ℕ → ℕ) → Option (List (List ℕ))
  copy_args allocs zero i argvec space = some []
  copy_args allocs (suc left) i argvec space =
      let rest = copy_args allocs left (i + 1) argvec space in
      elim (kernel_str_dup (allocs (i + 2)) (load_word (argvec + 4 * i) space) space) [
        | none ↦ none
        | some s ↦ cons_some s rest
      ]

  -- With an argument vector.
  abbrev pub copy_vector :
      (allocs : ℕ → Bool) (name : List ℕ) (argvec : ℕ) → (ℕ → ℕ) → Option (List ℕ × List (List ℕ))
  copy_vector allocs name argvec space =
      let argc = count_args 64 0 argvec space in
      if argc == 64 || not (allocs 1) then none else elim (copy_args allocs argc 0 argvec space) [
        | none ↦ none
        | some args ↦ some (name, args)
      ]

  -- Without one: the only argument is the name.
  abbrev pub copy_name :
      (allocs : ℕ → Bool) (name : List ℕ) (filename : ℕ) → (ℕ → ℕ) → Option (List ℕ × List (List ℕ))
  copy_name allocs name filename space =
      if not (allocs 1) then none else elim (kernel_str_dup (allocs 2) filename space) [
        | none ↦ none
        | some s ↦ some (name, s ∷ [])
      ]

  pub copy_exec_args :
      (allocs : ℕ → Bool) (filename argvec : ℕ) → (ℕ → ℕ) → Option (List ℕ × List (List ℕ))
  copy_exec_args allocs filename argvec space = elim (kernel_str_dup (allocs 0) filename space) [
    | none ↦ none
    | some name ↦
        if argvec == 0
        then copy_name allocs name filename space
        else copy_vector allocs name argvec space
  ]

  -- SysExec from LoadProgram's return on.
  abbrev pub end_exec : Loaded × Kernel → Outcome × Kernel
  end_exec (loaded, k) = (returned success, k)
  end_exec (failed, k) = (returned error, k)
  end_exec (killed, k) = (switched, process_exit_current error k)

  pub sys_exec :
      (allocs : ℕ → Bool) (files : List ℕ → File) (filename argvec : ℕ) → Kernel → Outcome × Kernel
  sys_exec allocs files filename argvec k =
      if no_process k
      then (returned error, k)
      else elim (copy_exec_args allocs filename argvec (k.procs k.current).space) [
        | none ↦ (returned error, k)
        | some (name, args) ↦ end_exec (load_program (files name) args k.current k)
      ]
