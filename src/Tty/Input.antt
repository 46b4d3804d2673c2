-- ===== src/Tty/Input.antt =====
-- Terminal input: SysTtyRead takes the terminal's unread bytes in the order in which they came.
use yalnix.Base.{
  ℕ, ◌+◌, ◌-◌, ◌≤◌, ◌<◌, ◌≡◌, refl, sym, ap, ◌∙◌, ◌≢◌, ◌⊎◌, inl, inr, true, false, Option, none,
  some, List, [], ◌∷◌, ◌++◌, arith, ◌==◌, ltb, Bool-cases, pos, bytes, bytes-append, bytes-copy,
  ==_refl, append-nil, append_assoc,
}
use yalnix.Hardware.{Hardware}
use yalnix.State.{Kernel, ProcState, Resume, QueueRef, TtyLine, TtyState, modify}
use yalnix.Process.{process_schedule}
use yalnix.Ipc.{Outcome, returned, switched, no_process}
use yalnix.Tty.{
  tty_next_line, next_of, next_input, or_next_line, line_count, keep_rest, copy_line, tty_copy_line,
  tty_valid, read_or_wait, tty_read_loop, sys_tty_read,
}

-- The bytes of a line that nobody has read.
abbrev pub rest : TtyLine → List ℕ
rest l = bytes l.bytes l.pos (l.len - l.pos)

abbrev pub rest_of : Option TtyLine → List ℕ
rest_of none = []
rest_of (some l) = rest l

abbrev pub lines : List TtyLine → List ℕ
lines [] = []
lines (l ∷ q) = rest l ++ lines q

-- All that a terminal holds for its readers: what is left of the line last read from, then the
-- lines that came since.
abbrev pub unread : TtyState → List ℕ
unread t = rest_of t.line ++ lines t.input_queue

-- No line is read to its end.
abbrev IsOpen : Option TtyLine → Type 0
IsOpen none = Unit {0}
IsOpen (some l) = l.pos < l.len

abbrev AllOpen : List TtyLine → Type 0
AllOpen [] = Unit {0}
AllOpen (l ∷ q) = (l.pos < l.len) × AllOpen q

abbrev pub IsTty : TtyState → Type 0
IsTty t = IsOpen t.line × AllOpen t.input_queue

-- The line that TtyNextLine takes, followed by what stays, is what was there.
Taken : TtyState → Option TtyLine × TtyState → Type 0
Taken t (none, t') = unread t ≡ []
Taken t (some l, t') =
    (rest l ++ lines t'.input_queue ≡ unread t)
    × (t'.line ≡ none)
    × (l.pos < l.len)
    × AllOpen t'.input_queue

next_input-Taken :
    (t : TtyState) (q : List TtyLine)
    → t.line ≡ none
    → t.input_queue ≡ q
    → AllOpen q
    → Taken t (next_input t q)
unfolding Taken
next_input-Taken t [] none_kept e open_q = rw (none_kept, e) refl
next_input-Taken t (l ∷ q) none_kept e open_q =
    (rw (none_kept, e) refl, none_kept, open_q.0, open_q.1)

next_of-Taken : (t : TtyState) (o : Option TtyLine) → t.line ≡ o → IsTty t → Taken t (next_of t o)
unfolding Taken
next_of-Taken t none e v = next_input-Taken t t.input_queue e refl v.1
next_of-Taken t (some l) e v = (rw e refl, refl, (rw e at v.0), v.1)

-- What a reader gets of a line, followed by what the terminal keeps of it.
line-split :
    (l : TtyLine) (n : ℕ) (t : TtyState)
    → l.pos < l.len
    → t.line ≡ none
    → bytes l.bytes l.pos (line_count l n) ++ rest_of (keep_rest l (line_count l n) t).line ≡ rest l
line-split l n t lt none_kept = elim (Bool-cases (ltb n (l.len - l.pos))) [
  | inl part ↦
      let short : ltb (l.pos + n) l.len ≡ true = ground arith in
      let whole : n + (l.len - (l.pos + n)) ≡ l.len - l.pos = ground arith in
      rw (part, short)
        (sym (bytes-append l.bytes l.pos n (l.len - (l.pos + n))) ∙ ap (bytes l.bytes l.pos) whole)
  | inr all ↦
      let done : ltb (l.pos + (l.len - l.pos)) l.len ≡ false = ground arith in
      rw (all, done, none_kept) (append-nil (rest l))
]

module _ ⦃hw : Hardware⦄ (id buf n : ℕ) (k : Kernel) where
  -- The reader sleeps until there is input: it is blocked, the last of the terminal's readers, with the request
  -- kept in its PCB, when the scheduler is called, from where it goes on with SysTtyRead.
  pub Sleeps : Kernel → Type 0
  Sleeps k' =
      (m : Kernel) × (k' ≡ process_schedule (Resume.in_tty_read id) m)
      × (m.procs k.current ≡ record (k.procs k.current) {
        tty_id = id;
        tty_read_buf = buf;
        tty_read_len = n;
        state = ProcState.blocked;
        block_queue = some (QueueRef.tty_readers id);
      })
      × ((q : ℕ) → q ≢ k.current → m.procs q ≡ k.procs q)
      × ((m.terminals id).read_queue ≡ (k.terminals id).read_queue ++ k.current ∷ [])
      × (m.current ≡ k.current)
      × (m.ready_queue ≡ k.ready_queue)

  -- What a read of at most `n` bytes into `buf` gives: it waits where there is nothing, and otherwise
  -- what it returns, followed by what the terminal then holds, is what the terminal held.
  pub Reads : Outcome × Kernel → Type 0
  Reads (o, k') =
      ((unread (k.terminals id) ≡ []) × (o ≡ switched) × Sleeps k')
      ⊎ ((count : ℕ) × (o ≡ returned (pos count))
          × (0 < count)
          × (count ≤ n)
          × (bytes (k'.procs k.current).space buf count ++ unread (k'.terminals id)
              ≡ unread (k.terminals id)))

  abbrev asked : Kernel
  asked = modify k.current (λ b. record b { tty_id = id; tty_read_buf = buf; tty_read_len = n }) k

  asleep : Sleeps (read_or_wait id (none, asked)).1
  unfolding Sleeps
  asleep = (
    _,
    refl,
    rw (==_refl k.current) refl,
    λ q other. let a : (k.current == q) ≡ false = ground (arith, other) in rw a refl,
    rw (==_refl id) refl,
    refl,
    refl,
  )

  got :
      (r : Option TtyLine × TtyState)
      → 0 < n
      → Taken (k.terminals id) r
      → Reads (read_or_wait id (copy_line id k.current asked r))
  unfolding Taken Reads
  got (none, t') some_bytes taken = inl (taken, refl, asleep)
  got (some l, t') some_bytes (split, none_kept, open_l, open_q) = rw (==_refl k.current) (
      inr (
        line_count l n,
        refl,
        ground arith,
        ground arith,
        rw (==_refl id) (
            ap (λ bs. bs ++ (stays ++ lines t'.input_queue))
              (bytes-copy (k.procs k.current).space buf l.bytes l.pos (line_count l n))
            ∙ sym (append_assoc (bytes l.bytes l.pos (line_count l n)) stays (lines t'.input_queue))
            ∙ ap (λ bs. bs ++ lines t'.input_queue) (line-split l n t' open_l none_kept)
            ∙ split),
      ))
    where
      stays : List ℕ
      stays = rest_of (keep_rest l (line_count l n) t').line

  sys_tty_read-eq :
      tty_valid (pos id) ≡ true
      → buf ≢ 0
      → 0 < n
      → no_process k ≡ false
      → sys_tty_read (pos id) buf (pos n) k ≡ tty_read_loop id asked
  unfolding sys_tty_read
  sys_tty_read-eq valid nz some_bytes user =
      let ok : (buf == 0) ≡ false = ground arith in
      let more : (n == 0) ≡ false = ground arith in rw (valid, ok, more, user) refl

  loop-eq :
      (k.procs k.current).tty_read_line ≡ none
      → tty_read_loop id asked
        ≡ read_or_wait id
            (copy_line id k.current asked (next_of (k.terminals id) (k.terminals id).line))
  unfolding tty_read_loop tty_copy_line tty_next_line
  loop-eq fresh =
      let none_handed : (asked.procs k.current).tty_read_line ≡ none =
        rw (==_refl k.current) fresh in
      ap (λ o. read_or_wait id (copy_line id k.current asked (or_next_line (k.terminals id) o)))
        none_handed

  -- A process that no line was handed to reads at most `n` bytes from a terminal whose lines are not
  -- read to their end: where there is no input it gives up the processor, blocked and the
  -- last of the terminal's readers when the scheduler is called, and otherwise returns a number above zero and
  -- at most `n`. What it gets, followed by what the terminal then holds, is what the terminal held.
  pub sys_tty_read-Reads :
      tty_valid (pos id) ≡ true
      → buf ≢ 0
      → 0 < n
      → no_process k ≡ false
      → (k.procs k.current).tty_read_line ≡ none
      → IsTty (k.terminals id)
      → Reads (sys_tty_read (pos id) buf (pos n) k)
  sys_tty_read-Reads valid nz some_bytes user fresh open_lines =
      rw (sys_tty_read-eq valid nz some_bytes user, loop-eq fresh)
        (got (next_of (k.terminals id) (k.terminals id).line) some_bytes
          (next_of-Taken (k.terminals id) (k.terminals id).line refl open_lines))
