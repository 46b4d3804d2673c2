-- ===== src/Exec/Tests.antt =====
-- A program with two arguments, on the sample machine.
use yalnix.Base.{ℕ, ◌+◌, ◌-◌, ◌≤◌, ◌≡◌, refl, true, some, List, [], ◌∷◌, arith, All}
use yalnix.Hardware.Sample.{sample}
use yalnix.Memory.Isolation.{IsIsolated}
use yalnix.State.{Kernel}
use yalnix.State.Sample.{blank_memory, three_processes}
use yalnix.Loader.{LoadInfo, File, frame_start, build_stack, load_program}
use yalnix.Exec.{string_at, copy_exec_args}
use yalnix.Exec.Args.{IsText}
use yalnix.Exec.Promise.{InOrder, Program}
use yalnix.Exec.Program.{load_program-Program}
use yalnix.Exec.Execed.{Execed}
use yalnix.Exec.Roundtrip.{copy_exec_args-build_stack}

-- The arguments `sh` and `x`.
abbrev two_args : List (List ℕ)
two_args = (115 ∷ 104 ∷ []) ∷ (120 ∷ []) ∷ []

two_args-IsText : All IsText two_args
two_args-IsText = ((omega arith, (omega arith, tt)), ((omega arith, tt), tt))

copy_exec_args-build_stack_example :
    copy_exec_args (λ _. true) 0x10_0000 (frame_start two_args + 4) (build_stack two_args (λ _. 0))
    ≡ some (string_at (0x20_0000 - 0x10_0000) 0x10_0000 (build_stack two_args (λ _. 0)), two_args)
copy_exec_args-build_stack_example =
    copy_exec_args-build_stack (λ _. true) two_args (λ _. 0) 0x10_0000 (λ n. refl)
      (omega arith, omega arith) two_args-IsText (omega arith) (omega arith)

-- One page of text, one of initialised and one of uninitialised data.
abbrev small_program : LoadInfo
small_program = record {
  entry = 0x10_0020;
  t_vaddr = 0x10_0000;
  t_npg = 1;
  id_vaddr = 0x10_4000;
  id_npg = 1;
  id_end = 0x10_4100;
  ud_npg = 1;
  ud_end = 0x10_6800;
}

abbrev program_file : File
program_file = record {
  info = some small_program;
  malloc_ok = true;
  text = some (λ a. a);
  data_bytes = some (λ a. a);
  residue = λ a. 1;
}

abbrev loading : Kernel
loading = record three_processes { memory = record blank_memory { frame_count = 12 } }

loading-IsIsolated : IsIsolated loading.memory
loading-IsIsolated = record { held = λ t i h. cc; apart = λ t i u j h k e. cc }

small_program-InOrder :
    (args : List (List ℕ)) → 0x10_7000 ≤ frame_start args → InOrder small_program args
small_program-InOrder args high = record {
  text_end = omega arith;
  data_start = omega arith;
  read_end = omega (arith, high);
  data_end = omega (arith, high);
}

load_program-Program_example :
    Program 16384 small_program program_file two_args 2 loading
      (load_program program_file two_args 2 loading)
load_program-Program_example =
    load_program-Program program_file small_program two_args 2 loading (omega arith)
      loading-IsIsolated (omega arith) (small_program-InOrder two_args (omega arith))
      (omega arith, omega arith) two_args-IsText (omega arith) refl

-- Exec of a file whose name is empty, without an argument vector.
abbrev calling : Kernel
calling = record loading { procs = λ p. record (loading.procs p) { space = λ _. 0 } }
