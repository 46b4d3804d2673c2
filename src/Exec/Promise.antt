-- ===== src/Exec/Promise.antt =====
-- What LoadProgram of src/template.c promises: the region 1 that a program starts with, and why it may fail.
use yalnix.Base.{ℕ, ◌+◌, ◌*◌, ◌≤◌, ◌<◌, ◌≡◌, ◌≢◌, ◌⊎◌, true, false, none, some, List, length}
use yalnix.Hardware.{Hardware, prot_rw, prot_rx, page_size}
use yalnix.Memory.Short.{Short}
use yalnix.Memory.{memory_free_page_table_frames}
use yalnix.Memory.Isolation.{IsIsolated}
use yalnix.State.{Kernel}
use yalnix.Loader.{
  LoadInfo, File, Loaded, loaded, failed, killed, text_page, data_page, stack_npg,
  stack_base_page_of, frame_start, stack_pointer,
}
use yalnix.Loader.Ranges.{Apart}
use yalnix.Exec.{load_word}
use yalnix.Exec.Args.{Holds}

-- What LoadProgram wants of an executable and its arguments: it is linked for region 1, and region 1 has room
-- for the text, for the data behind it, and for the stack, with a page between.
pub record Fits ⦃hw : Hardware⦄ (li : LoadInfo) (args : List (List ℕ)) : Type 0 where
  pub entry : hw.vmem_1_base ≤ li.entry
  pub text : hw.vmem_1_base ≤ li.t_vaddr
  pub bytes : hw.vmem_1_base ≤ li.id_vaddr
  pub order : text_page li ≤ data_page li
  pub inside : text_page li + li.t_npg ≤ hw.max_pt_len
  pub room : data_page li + (li.id_npg + li.ud_npg) + stack_npg args < hw.max_pt_len

-- The addresses of the text, the data and the arguments follow each other.
pub record InOrder ⦃hw : Hardware⦄ (li : LoadInfo) (args : List (List ℕ)) : Type 0 where
  pub text_end : li.t_vaddr + li.t_npg * page_size ≤ li.id_vaddr
  pub data_start : li.id_vaddr ≤ li.id_end
  pub read_end : li.id_vaddr + li.id_npg * page_size ≤ frame_start args
  pub data_end : li.ud_end ≤ frame_start args

-- The process `proc` with the table `pt` is about to run the program: its text can be read and executed,
-- its data and its stack read and written, and no other page is mapped; it starts at the program's entry
-- with the argument count and the arguments on its stack, and its heap starts behind its data. Its memory
-- holds the text `code` and the data `init` of the file, and 0 where the data is not initialised.
pub record Running ⦃hw : Hardware⦄ (pt : ℕ) (li : LoadInfo) (code init : ℕ → ℕ)
    (args : List (List ℕ)) (proc : ℕ) (k k' : Kernel) : Type 0 where
  pub code_bytes :
      (i : ℕ) → i < li.t_npg * page_size → (k'.procs proc).space (li.t_vaddr + i) ≡ code i
  pub init_bytes :
      (i : ℕ)
      → i < li.id_npg * page_size
      → li.id_vaddr + i < li.id_end
      → (k'.procs proc).space (li.id_vaddr + i) ≡ init i
  pub zeros : (a : ℕ) → li.id_end ≤ a → a < li.ud_end → (k'.procs proc).space a ≡ 0
  pub text :
      (j : ℕ)
      → text_page li ≤ j
      → j < text_page li + li.t_npg
      → ((k'.memory.tables pt j).valid ≡ true) × ((k'.memory.tables pt j).prot ≡ prot_rx)
  pub bytes :
      (j : ℕ)
      → data_page li ≤ j
      → j < data_page li + (li.id_npg + li.ud_npg)
      → ((k'.memory.tables pt j).valid ≡ true) × ((k'.memory.tables pt j).prot ≡ prot_rw)
  pub stack :
      (j : ℕ)
      → stack_base_page_of args ≤ j
      → j < hw.max_pt_len
      → ((k'.memory.tables pt j).valid ≡ true) × ((k'.memory.tables pt j).prot ≡ prot_rw)
  pub gaps :
      (j : ℕ)
      → j < hw.max_pt_len
      → (j < text_page li) ⊎ (text_page li + li.t_npg ≤ j)
      → (j < data_page li) ⊎ (data_page li + (li.id_npg + li.ud_npg) ≤ j)
      → j < stack_base_page_of args
      → (k'.memory.tables pt j).valid ≡ false
  pub others : (t j : ℕ) → t ≢ pt → k'.memory.tables t j ≡ k.memory.tables t j
  pub isolated : IsIsolated k'.memory
  pub pc : (k'.procs proc).user_context.pc ≡ li.entry
  pub sp : (k'.procs proc).user_context.sp ≡ stack_pointer args
  pub brk : (k'.procs proc).user_brk ≡ hw.up_to_page li.ud_end
  pub low : (k'.procs proc).user_stack_low_page ≡ stack_base_page_of args
  pub argc : load_word (frame_start args) (k'.procs proc).space ≡ length args
  pub argv : Holds args (frame_start args + 4) (k'.procs proc).space
  pub strangers : (q : ℕ) → q ≢ proc → k'.procs q ≡ k.procs q

-- LoadProgram gave up once it had taken the old memory of the process `proc`: the table `pt` maps no page but
-- the program's, what region 1 of the process holds has changed and nothing else of any process, and
-- a segment could not be read whole, or fewer frames were free, the process's own included, than the
-- program has pages.
pub record Killed ⦃hw : Hardware⦄ (pt : ℕ) (li : LoadInfo) (file : File) (args : List (List ℕ))
    (proc : ℕ) (k k' : Kernel) : Type 0 where
  pub gone : (j : ℕ) → j < hw.max_pt_len → Apart li args j → (k'.memory.tables pt j).valid ≡ false
  pub others : (t j : ℕ) → t ≢ pt → k'.memory.tables t j ≡ k.memory.tables t j
  pub own : k'.procs proc ≡ record (k.procs proc) { space = (k'.procs proc).space }
  pub strangers : (q : ℕ) → q ≢ proc → k'.procs q ≡ k.procs q
  pub current : k'.current ≡ k.current
  pub reason :
      (file.text ≡ none)
      ⊎ (file.data_bytes ≡ none)
      ⊎ Short
          (li.t_npg + (li.id_npg + li.ud_npg + stack_npg args))
          (memory_free_page_table_frames pt k.memory)

-- Why LoadProgram refuses an executable.
abbrev pub Unfit : ⦃hw : Hardware⦄ → File → LoadInfo → List (List ℕ) → Type 0
Unfit file li args = (file.malloc_ok ≡ false) ⊎ ¬ Fits li args

-- Where LoadProgram ends.
unfoldable pub Program :
    ⦃hw : Hardware⦄ (pt : ℕ)
    → LoadInfo
    → File
    → List (List ℕ)
    → (proc : ℕ) → Kernel
    → Loaded × Kernel
    → Type 0
Program pt li file args proc k (loaded, k') =
    (code : ℕ → ℕ) × (init : ℕ → ℕ) × (file.text ≡ some code)
    × (file.data_bytes ≡ some init)
    × Running pt li code init args proc k k'
Program pt li file args proc k (failed, k') = Unfit file li args × (k' ≡ k)
Program pt li file args proc k (killed, k') = Killed pt li file args proc k k'
