-- ===== src/Loader.antt =====
-- LoadProgram of src/template.c. What open, LoadInfo, malloc and read give is the argument `file`,
-- which has the bytes of the two segments where they were read whole, and what region 1 holds otherwise: what was in
-- the frames that MapRange found, and what a read that fell short has put there. The program's bytes are
-- written to region 1 of the process, which is the one that runs.
--
-- The page numbers and sizes are `int`s there. A segment below region 1 is refused: its page number is
-- negative, or as a 32-bit pattern larger than any table. Arguments that are larger than region 1
-- are refused as well, since the stack would be: subtraction that stops at 0 gives the same.
pub mod Protect
pub mod Ranges
pub mod Segments
use yalnix.Base.{
  ℕ, zero, suc, ◌+◌, ◌-◌, ◌*◌, ◌/◌, ◌%◌, ◌^◌, Bool, true, false, not, ◌&&◌, ◌||◌, Option, none,
  some, List, [], ◌∷◌, ◌==◌, leb, ltb, if◌then◌else◌, pos, length, copy, store_int,
}
use yalnix.Hardware.{Hardware, page_size, page_of, prot_rw, prot_rx}
use yalnix.Memory.{Memory, set_pte, memory_free_page_table_frames, write_register_flush}
use yalnix.State.{Kernel, Pcb, modify}
use yalnix.UserMemory.{map_range}

-- The framework's `struct load_info`.
pub record LoadInfo : Type 0 where
  pub entry : ℕ
  pub t_vaddr : ℕ
  pub t_npg : ℕ
  pub id_vaddr : ℕ
  pub id_npg : ℕ
  pub id_end : ℕ
  pub ud_npg : ℕ
  pub ud_end : ℕ

-- `info` is none where the file cannot be opened or is no executable.
pub record File : Type 0 where
  pub info : Option LoadInfo
  pub malloc_ok : Bool
  pub text : Option (ℕ → ℕ)
  pub data_bytes : Option (ℕ → ℕ)
  pub residue : ℕ → ℕ

-- The results SUCCESS, ERROR and KILL.
pub data Loaded : Type 0 where
  loaded failed killed : Loaded

-- A string as an array: its bytes, and 0 from its end on.
abbrev pub char_at : List ℕ → ℕ → ℕ
char_at [] i = 0
char_at (c ∷ s) zero = c
char_at (c ∷ s) (suc i) = char_at s i

-- `argsize`
abbrev pub arg_size : List (List ℕ) → ℕ
arg_size [] = 0
arg_size (s ∷ ss) = length s + 1 + arg_size ss

-- memset(a, 0, n)
abbrev pub clear : (a n : ℕ) → (ℕ → ℕ) → ℕ → ℕ
clear a n space i = if leb a i && ltb i (a + n) then 0 else space i

-- The loop that writes the pointers from `cpp` on and the strings from `cp` on, and the two NULLs.
unfoldable pub put_args : List (List ℕ) → (cp cpp : ℕ) → (ℕ → ℕ) → ℕ → ℕ
put_args [] cp cpp space = store_int (cpp + 4) (pos 0) (store_int cpp (pos 0) space)
put_args (s ∷ ss) cp cpp space =
    put_args ss (cp + (length s + 1)) (cpp + 4)
      (copy (store_int cpp (pos cp) space) cp (char_at s) 0 (length s + 1))

module _ ⦃hw : Hardware⦄ where
  -- `cp`, where the strings start,
  abbrev pub strings_start : List (List ℕ) → ℕ
  strings_start args = hw.vmem_1_limit - arg_size args

  -- `cpp`, where the argument count stands,
  abbrev pub frame_start : List (List ℕ) → ℕ
  frame_start args =
      let a = strings_start args - (length args + 3 + hw.post_argv_null_space) * 4 in a - a % 8

  -- and `stack_ptr`.
  abbrev pub stack_pointer : List (List ℕ) → ℕ
  stack_pointer args = frame_start args - hw.initial_stack_frame_size

  abbrev pub stack_npg : List (List ℕ) → ℕ
  stack_npg args = page_of (hw.vmem_1_limit - hw.down_to_page (stack_pointer args))

  abbrev pub text_page : LoadInfo → ℕ
  text_page li = page_of (li.t_vaddr - hw.vmem_1_base)

  abbrev pub data_page : LoadInfo → ℕ
  data_page li = page_of (li.id_vaddr - hw.vmem_1_base)

  -- The checks that come before anything is changed.
  abbrev pub misfits : LoadInfo → List (List ℕ) → Bool
  misfits li args =
      ltb li.entry hw.vmem_1_base
      || (ltb li.t_vaddr hw.vmem_1_base
          || (ltb li.id_vaddr hw.vmem_1_base
              || (ltb (data_page li) (text_page li)
                  || (ltb hw.max_pt_len (text_page li + li.t_npg)
                      || leb hw.max_pt_len
                          (data_page li + (li.id_npg + li.ud_npg) + stack_npg args)))))

  abbrev pub stack_base_page_of : List (List ℕ) → ℕ
  stack_base_page_of args = hw.max_pt_len - stack_npg args

  -- The three calls of MapRange.
  unfoldable pub map_segments : (pt : ℕ) → LoadInfo → List (List ℕ) → Memory → Bool × Memory
  map_segments pt li args m =
      let (text_ok, m₁) = map_range pt prot_rw li.t_npg (text_page li) m in
      let (data_ok, m₂) = map_range pt prot_rw (li.id_npg + li.ud_npg) (data_page li) m₁ in
      let (stack_ok, m₃) = map_range pt prot_rw (stack_npg args) (stack_base_page_of args) m₂ in
      if text_ok then (if data_ok then (stack_ok, m₃) else (false, m₂)) else (false, m₁)

  -- The text can be read and executed only: `left` pages from `i` on.
  pub protect : (left i pt : ℕ) → Memory → Memory
  protect zero i pt m = m
  protect (suc left) i pt m =
      protect left (i + 1) pt
        (record m { tables = set_pte m.tables pt i (record (m.tables pt i) { prot = prot_rx }) })

  -- The argument count, the pointers and the strings at the top of the stack.
  unfoldable pub build_stack : List (List ℕ) → (ℕ → ℕ) → ℕ → ℕ
  build_stack args space = put_args args (strings_start args) (frame_start args + 4) (
      store_int (frame_start args) (pos (length args))
        (clear (frame_start args) (hw.vmem_1_limit - frame_start args) space))

  abbrev pub read_text : LoadInfo → (text space : ℕ → ℕ) → ℕ → ℕ
  read_text li text space = copy space li.t_vaddr text 0 (li.t_npg * page_size)

  -- The two segments, and the bytes of the uninitialised data.
  abbrev pub read_segments : LoadInfo → (text data_bytes : ℕ → ℕ) → (ℕ → ℕ) → ℕ → ℕ
  read_segments li text data_bytes space =
      clear li.id_end (li.ud_end - li.id_end)
        (copy (read_text li text space) li.id_vaddr data_bytes 0 (li.id_npg * page_size))

  -- What LoadProgram leaves of the process.
  abbrev pub start_program : LoadInfo → List (List ℕ) → (ℕ → ℕ) → Pcb → Pcb
  start_program li args space b = record b {
    user_context = record b.user_context { pc = li.entry; sp = stack_pointer args };
    user_heap_start = hw.up_to_page li.ud_end;
    user_brk = hw.up_to_page li.ud_end;
    user_stack_low_page = stack_base_page_of args;
    space = space;
  }

  -- Region 1 of the process holds `space`.
  abbrev pub hold : (proc : ℕ) (space : ℕ → ℕ) → Kernel → Kernel
  hold proc space k = modify proc (λ b. record b { space = space }) k

  -- LoadProgram from the first call of read on, where region 1 holds `residue`.
  abbrev pub fill_segments :
      LoadInfo
      → List (List ℕ)
      → (residue : ℕ → ℕ) → (text data_bytes : Option (ℕ → ℕ)) → (proc : ℕ) → Kernel
      → Loaded × Kernel
  fill_segments li args residue none data_bytes proc k = (killed, hold proc residue k)
  fill_segments li args residue (some text) none proc k =
      (killed, hold proc (read_text li text residue) k)
  fill_segments li args residue (some text) (some data_bytes) proc k = (
    loaded,
    modify proc
        (start_program li args (build_stack args (read_segments li text data_bytes residue)))
        (record k {
          memory =
              write_register_flush hw.tlb_flush_1
                (protect li.t_npg (text_page li) (k.procs proc).region1_pt k.memory);
        }),
  )

  -- LoadProgram from the three calls of MapRange on.
  abbrev pub load_mapped :
      LoadInfo → File → List (List ℕ) → (proc : ℕ) → Kernel → Bool × Memory → Loaded × Kernel
  load_mapped li file args proc k (false, m) =
      (killed, hold proc file.residue (record k { memory = m }))
  load_mapped li file args proc k (true, m) =
      fill_segments li args file.residue file.text file.data_bytes proc
        (record k { memory = write_register_flush hw.tlb_flush_1 m })

  unfoldable pub load_program : File → List (List ℕ) → (proc : ℕ) → Kernel → Loaded × Kernel
  load_program file args proc k = elim file.info [
    | none ↦ (failed, k)
    | some li ↦
        if misfits li args || not file.malloc_ok
        then (failed, k)
        else load_mapped li file args proc k (
            map_segments (k.procs proc).region1_pt li args
              (memory_free_page_table_frames (k.procs proc).region1_pt k.memory))
  ]
