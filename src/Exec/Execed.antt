-- ===== src/Exec/Execed.antt =====
-- SysExec of src/syscalls.c as a whole, with LoadProgram of src/template.c.
use yalnix.Base.{ℕ, ◌+◌, ◌≤◌, ◌≡◌, ◌⊎◌, Bool, true, false, Option, none, some, List}
use yalnix.Hardware.{Hardware}
use yalnix.State.{Kernel, error, success}
use yalnix.Ipc.{Outcome, returned, switched, hangs, no_process}
use yalnix.Life.{process_exit_current}
use yalnix.Loader.{LoadInfo, File, text_page, data_page}
use yalnix.Exec.{copy_exec_args}
use yalnix.Exec.Args.{Roomy}
use yalnix.Exec.Promise.{InOrder, Unfit, Killed, Running, Program}

module _ ⦃hw : Hardware⦄ (allocs : ℕ → Bool) (files : List ℕ → File) (filename argvec : ℕ)
    (k : Kernel) where
  abbrev pt : ℕ
  pt = (k.procs k.current).region1_pt

  abbrev copied : Option (List ℕ × List (List ℕ))
  copied = copy_exec_args allocs filename argvec (k.procs k.current).space

  -- What the call finds under the name that it was given.
  abbrev Finds : List ℕ → List (List ℕ) → LoadInfo → Type 0
  Finds name args li = (copied ≡ some (name, args)) × ((files name).info ≡ some li)

  -- Every executable that may be found has its text before its data, and the arguments fit in region 1 behind them.
  unfoldable pub Loadable : Type 0
  Loadable =
      (name : List ℕ) (args : List (List ℕ)) (li : LoadInfo)
      → Finds name args li
      → (text_page li + li.t_npg ≤ data_page li) × InOrder li args × Roomy args

  -- Why the call is refused: no user process runs, the name or the arguments cannot be copied, the name is that of
  -- no executable, or it or malloc has no room.
  Refusal : Type 0
  Refusal =
      (no_process k ≡ true)
      ⊎ (copied ≡ none)
      ⊎ ((name : List ℕ) × (args : List (List ℕ)) × (copied ≡ some (name, args))
          × (((files name).info ≡ none)
              ⊎ ((li : LoadInfo) × ((files name).info ≡ some li) × Unfit (files name) li args)))

  -- Where SysExec ends.
  pub Execed : Outcome × Kernel → Type 0
  Execed (returned v, k') =
      ((v ≡ error) × (k' ≡ k) × Refusal)
      ⊎ ((v ≡ success)
          × (name : List ℕ) × (args : List (List ℕ)) × (li : LoadInfo) × Finds name args li
          × (code : ℕ → ℕ) × (init : ℕ → ℕ) × ((files name).text ≡ some code)
          × ((files name).data_bytes ≡ some init)
          × Running pt li code init args k.current k k')
  Execed (switched, k') =
      (m : Kernel) × (k' ≡ process_exit_current error m)
      × (name : List ℕ) × (args : List (List ℕ)) × (li : LoadInfo) × Finds name args li
      × Killed pt li (files name) args k.current k m
  Execed (hangs, k') = true ≡ false
