-- ===== src/Exec/Program.antt =====
-- LoadProgram of src/template.c as a whole: the region 1 that a program starts with.
use yalnix.Base.{
  ℕ, ◌+◌, ◌-◌, ◌*◌, ◌^◌, ◌≤◌, ◌<◌, ◌≡◌, refl, sym, subst, ◌∙◌, ap, ◌≢◌, ◌⊎◌, inl, inr, Bool, true,
  false, not, ◌||◌, Option, none, some, List, arith, copy, if◌then◌else◌, Bool-cases, All, length,
}
use yalnix.Hardware.{Hardware, page_size}
use yalnix.Memory.Short.{Short}
use yalnix.Memory.{Memory, memory_free_page_table_frames, write_register_flush}
use yalnix.Memory.Isolation.{IsIsolated}
use yalnix.Memory.Release.{Released, memory_free_page_table_frames-Released}
use yalnix.State.{Kernel, modify-at, modify-off}
use yalnix.Loader.{
  LoadInfo, File, failed, text_page, data_page, stack_npg, stack_base_page_of, frame_start,
  build_stack, misfits, start_program, read_segments, read_text, hold, clear, fill_segments,
  load_mapped, load_program, map_segments,
}
use yalnix.Loader.Protect.{protect-Protected, Protected-IsIsolated}
use yalnix.Loader.Segments.{map_segments-Mappings}
use yalnix.Loader.Ranges.{Apart, Built, Mappings}
use yalnix.Exec.{load_word}
use yalnix.Exec.Args.{
  IsText, Holds, Roomy, build_stack-Holds, build_stack-count, build_stack-below, copy-outside,
  copy-inside,
}
use yalnix.Exec.Promise.{InOrder, Killed, Unfit, Program}

outside_clear : (a n : ℕ) (space : ℕ → ℕ) (x : ℕ) → x < a → clear a n space x ≡ space x
outside_clear a n space x lt = ground arith

module _ ⦃hw : Hardware⦄ (file : File) (li : LoadInfo) (args : List (List ℕ)) (proc : ℕ)
    (k : Kernel) (nz : (k.procs proc).region1_pt ≢ 0) (v : IsIsolated k.memory)
    (ordered : text_page li + li.t_npg ≤ data_page li) (in_order : InOrder li args)
    (room : Roomy args) (texts : All IsText args) (short : length args < 2 ^ 32) where
  abbrev pt : ℕ
  pt = (k.procs proc).region1_pt

  abbrev freed : Memory
  freed = memory_free_page_table_frames pt k.memory

  release : Released pt 0 hw.max_pt_len k.memory freed
  release = (memory_free_page_table_frames-Released pt nz k.memory v).0

  -- What a failure behind MapRange leaves.
  stopped :
      (space : ℕ → ℕ) (n : Memory)
      → ((j : ℕ) → j < hw.max_pt_len → Apart li args j → (n.tables pt j).valid ≡ false)
      → ((t j : ℕ) → t ≢ pt → n.tables t j ≡ k.memory.tables t j)
      → (file.text ≡ none)
        ⊎ (file.data_bytes ≡ none)
        ⊎ Short (li.t_npg + (li.id_npg + li.ud_npg + stack_npg args)) freed
      → Killed pt li file args proc k (hold proc space (record k { memory = n }))
  stopped space n gone others reason =
      let me = modify-at proc (λ b. record b { space = space }) k in
      record {
        gone = gone;
        others = others;
        own = me ∙ sym (ap (λ f. record (k.procs proc) { space = f }) (ap (λ x. x.space) me));
        strangers = λ q off. modify-off proc (λ b. record b { space = space }) k q off;
        current = refl;
        reason = reason;
      }

  -- What region 1 holds below the arguments once the program is read.
  module _ (code init : ℕ → ℕ) where
    abbrev segments : ℕ → ℕ
    segments = read_segments li code init file.residue

    abbrev final : ℕ → ℕ
    final = build_stack args segments

    code_at : (i : ℕ) → i < li.t_npg * page_size → final (li.t_vaddr + i) ≡ code i
    code_at i lt =
        let o = in_order in
        let a = o.text_end in
        let b = o.data_start in
        let c = o.read_end in
        build_stack-below args segments (li.t_vaddr + i) room (omega (arith, a, c, lt))
        ∙ outside_clear li.id_end (li.ud_end - li.id_end)
            (copy (read_text li code file.residue) li.id_vaddr init 0 (li.id_npg * page_size))
            (li.t_vaddr + i) (omega (arith, a, b, lt))
        ∙ copy-outside (read_text li code file.residue) li.id_vaddr init (li.id_npg * page_size)
            (li.t_vaddr + i) (inl (omega (arith, a, lt)))
        ∙ copy-inside file.residue li.t_vaddr code (li.t_npg * page_size) i lt

    init_at :
        (i : ℕ)
        → i < li.id_npg * page_size
        → li.id_vaddr + i < li.id_end
        → final (li.id_vaddr + i) ≡ init i
    init_at i lt low =
        let c = in_order.read_end in
        build_stack-below args segments (li.id_vaddr + i) room (omega (arith, c, lt))
        ∙ outside_clear li.id_end (li.ud_end - li.id_end)
            (copy (read_text li code file.residue) li.id_vaddr init 0 (li.id_npg * page_size))
            (li.id_vaddr + i) low
        ∙ copy-inside (read_text li code file.residue) li.id_vaddr init (li.id_npg * page_size) i lt

    zero_at : (a : ℕ) → li.id_end ≤ a → a < li.ud_end → final a ≡ 0
    zero_at a le lt =
        let d = in_order.data_end in
        build_stack-below args segments a room (omega (arith, d, lt)) ∙ ground (arith, le, lt)

  -- Once the segments are mapped, in the memory `n`.
  filled-Program :
      (text bytes : Option (ℕ → ℕ)) (n : Memory)
      → file.text ≡ text
      → file.data_bytes ≡ bytes
      → text_page li + li.t_npg ≤ stack_base_page_of args
      → Built pt li args freed n
      → Program pt li file args proc k (
          fill_segments li args file.residue text bytes proc
            (record k { memory = write_register_flush hw.tlb_flush_1 n }))
  unfolding Program
  filled-Program none bytes n s t low b =
      stopped file.residue _ (λ j lt a. b.gaps j lt a.0 a.1 a.2)
        (λ t j off. b.others t j off ∙ release.others t j off) (inl s)
  filled-Program (some text) none n s t low b =
      stopped (read_text li text file.residue) _ (λ j lt a. b.gaps j lt a.0 a.1 a.2)
        (λ t j off. b.others t j off ∙ release.others t j off) (inr (inl t))
  filled-Program (some text) (some bytes) n s t low b =
      let m = write_register_flush hw.tlb_flush_1 n in
      let p = protect-Protected li.t_npg (text_page li) (text_page li + li.t_npg) pt m refl in
      let w : IsIsolated m = record { held = b.isolated.held; apart = b.isolated.apart } in
      let i = Protected-IsIsolated p w in
      let me = modify-at proc (start_program li args (final text bytes)) k in
      let held = ap (λ x. x.space) me in
      (
        text,
        bytes,
        s,
        t,
        record {
          code_bytes = λ i a. ap (λ f. f (li.t_vaddr + i)) held ∙ code_at text bytes i a;
          init_bytes = λ i a c. ap (λ f. f (li.id_vaddr + i)) held ∙ init_at text bytes i a c;
          zeros = λ x a c. ap (λ f. f x) held ∙ zero_at text bytes x a c;
          text = λ j a c. rw (p.inside j a c) ((b.text j a c).0, refl);
          bytes = λ j a c. rw (p.outside j (inr (omega arith))) (b.bytes j a c);
          stack = λ j a c. rw (p.outside j (inr (omega arith))) (b.stack j a c);
          gaps = λ j a c d e. p.valid pt j ∙ b.gaps j a c d e;
          others = λ t j off. p.others t j off ∙ b.others t j off ∙ release.others t j off;
          isolated = record { held = i.held; apart = i.apart };
          pc = ap (λ x. x.user_context.pc) me;
          sp = ap (λ x. x.user_context.sp) me;
          brk = ap (λ x. x.user_brk) me;
          low = ap (λ x. x.user_stack_low_page) me;
          argc = ap (load_word (frame_start args)) held ∙ build_stack-count args _ room short;
          argv =
              subst (Holds args (frame_start args + 4)) (sym held)
                (build_stack-Holds args (segments text bytes) room texts);
          strangers = λ q off. modify-off proc (start_program li args (final text bytes)) k q off;
        },
      )

  mapped-Program :
      (r : Bool × Memory)
      → text_page li + li.t_npg ≤ stack_base_page_of args
      → Mappings pt li args freed r
      → Program pt li file args proc k (load_mapped li file args proc k r)
  unfolding Mappings Program
  mapped-Program (true, n) low b = filled-Program file.text file.data_bytes n refl refl low b
  mapped-Program (false, n) low b =
      stopped file.residue n b.gone (λ t j off. b.others t j off ∙ release.others t j off)
        (inr (inr b.lack))

  fitting :
      misfits li args ≡ false
      → data_page li + (li.id_npg + li.ud_npg) + stack_npg args < hw.max_pt_len
  fitting e = ground (arith, e)

  unfit : misfits li args || not file.malloc_ok ≡ true → Unfit file li args
  unfit bad = elim (Bool-cases file.malloc_ok) [
    | inl memory ↦
        let misfit : misfits li args ≡ true = ground (arith, bad, memory) in
        inr (λ f.
          let fits : misfits li args ≡ false =
            ground (arith, f.entry, f.text, f.bytes, f.order, f.inside, f.room) in
          cc (misfit, fits))
    | inr none_left ↦ inl none_left
  ]

  unchanged :
      misfits li args || not file.malloc_ok ≡ true → Program pt li file args proc k (failed, k)
  unfolding Program
  unchanged bad = (unfit bad, refl)

  info-known :
      file.info ≡ some li
      → load_program file args proc k ≡ (
          if misfits li args || not file.malloc_ok
          then (failed, k)
          else load_mapped li file args proc k (map_segments pt li args freed))
  unfolding load_program
  info-known e = rw e refl

  -- The executable `file`, whose text ends before its data, with fewer than 2^32 arguments that have no byte 0 inside
  -- and fit in region 1 behind it; the process has a page table, and no
  -- two page table entries share a frame. Either LoadProgram returns ERROR with nothing changed, for want of
  -- memory of malloc's or since the program does not fit in region 1. Or it returns KILL, where a segment could
  -- not be read whole or fewer frames were free than the program has pages: then no page but the program's
  -- is mapped, and no other process or page table has changed. Or it returns SUCCESS: then the process's region 1 maps the
  -- text, the data and the stack with their protections and nothing else, it holds the text and the data of the file
  -- and zeros where the data is not initialised, the process starts at the program's entry with
  -- its arguments on the stack, and no other process or page table has changed.
  pub load_program-Program :
      file.info ≡ some li → Program pt li file args proc k (load_program file args proc k)
  load_program-Program e =
      rw (info-known e) (elim (Bool-cases (misfits li args || not file.malloc_ok)) [
        | inl bad ↦ rw bad (unchanged bad)
        | inr good ↦ rw good (
            let fits = fitting (ground (arith, good)) in
            mapped-Program (map_segments pt li args freed) (omega arith) (
              map_segments-Mappings pt li args freed nz
                (memory_free_page_table_frames-Released pt nz k.memory v).1
                (λ j a. release.cleared j (omega arith) a) ordered fits))
      ])
