-- ===== src/Tty/Receive.antt =====
-- Received lines: TrapTtyReceive, and what TtyCopyLine does with a line handed to a waiting reader.
use yalnix.Base.{
  ℕ, ◌+◌, ◌-◌, ◌<◌, ◌≡◌, refl, sym, ap, ◌∙◌, true, some, List, [], ◌∷◌, ◌++◌, arith, ltb, pos,
  bytes, ==_refl, append-nil, append_assoc,
}
use yalnix.Hardware.{Hardware}
use yalnix.State.{Kernel, TtyLine}
use yalnix.Process.{process_make_ready}
use yalnix.Tty.{tty_copy_line, tty_valid, deliver_line, trap_tty_receive}
use yalnix.Tty.Input.{rest, rest_of, lines, unread}

lines-append : (q : List TtyLine) (l : TtyLine) → lines (q ++ l ∷ []) ≡ lines q ++ rest l
lines-append [] l = append-nil (rest l)
lines-append (m ∷ q) l =
    ap (λ bs. rest m ++ bs) (lines-append q l) ∙ sym (append_assoc (rest m) (lines q) (rest l))

-- A received line of bytes `bs`: it follows what the terminal holds, or the longest waiting reader
-- has it.
abbrev pub Received : (id : ℕ) → List ℕ → (readers : List ℕ) → (before after : Kernel) → Type 0
Received id bs [] k k' = unread (k'.terminals id) ≡ unread (k.terminals id) ++ bs
Received id bs (p ∷ q) k k' =
    (unread (k'.terminals id) ≡ unread (k.terminals id))
    × ((k'.terminals id).read_queue ≡ q)
    × (rest_of (k'.procs p).tty_read_line ≡ bs)

pub process_make_ready-terminals :
    (p : ℕ) (k : Kernel) → (process_make_ready p k).terminals ≡ k.terminals
unfolding process_make_ready
process_make_ready-terminals p k = ground arith

process_make_ready-line :
    (p : ℕ) (k : Kernel)
    → ((process_make_ready p k).procs p).tty_read_line ≡ (k.procs p).tty_read_line
unfolding process_make_ready
process_make_ready-line p k = ground arith

module _ ⦃hw : Hardware⦄ (id n : ℕ) (line_data : ℕ → ℕ) (k : Kernel) where
  received : TtyLine
  received = record { len = n; pos = 0; bytes = line_data }

  whole : rest received ≡ bytes line_data 0 n
  unfolding received
  whole = ap (bytes line_data 0) (omega arith)

  deliver_line-Received :
      (q : List ℕ) → Received id (bytes line_data 0 n) q k (deliver_line id received q k)
  unfolding received
  deliver_line-Received [] = rw (==_refl id) (
      ap (λ bs. rest_of (k.terminals id).line ++ bs)
        (lines-append (k.terminals id).input_queue received)
      ∙ sym (
          append_assoc (rest_of (k.terminals id).line) (lines (k.terminals id).input_queue)
            (rest received))
      ∙ ap (λ bs. unread (k.terminals id) ++ bs) whole)
  deliver_line-Received (p ∷ q) =
      rw (process_make_ready-terminals p _, process_make_ready-line p _, ==_refl id, ==_refl p)
        (refl, refl, whole)

  -- A line that the hardware received on a valid terminal, with memory to be had, goes behind what the
  -- terminal holds for its readers, or, where readers wait, to the one that has waited longest.
  pub trap_tty_receive-Received :
      tty_valid (pos id) ≡ true
      → Received id
          (bytes line_data 0 n)
          (k.terminals id).read_queue
          k
          (trap_tty_receive (pos id) true (pos n) line_data k)
  unfolding trap_tty_receive received
  trap_tty_receive-Received valid = rw valid (deliver_line-Received (k.terminals id).read_queue)

-- A reader that was handed a line while another line's rest is kept: TtyCopyLine puts the rest of the
-- new line in the place of the kept one. Where the reader asks for less than the handed line holds,
-- the terminal then holds the rest of that line and the lines that came since; the bytes of the line
-- kept before are gone.
pub tty_copy_line-lost :
    (id proc : ℕ) (k : Kernel) (handed kept : TtyLine)
    → (k.procs proc).tty_read_line ≡ some handed
    → (k.terminals id).line ≡ some kept
    → handed.pos + (k.procs proc).tty_read_len < handed.len
    → let n = (k.procs proc).tty_read_len in
      let (o, k') = tty_copy_line id proc k in
      (o ≡ some n)
      × (unread (k.terminals id) ≡ rest kept ++ lines (k.terminals id).input_queue)
      × (unread (k'.terminals id)
          ≡ bytes handed.bytes (handed.pos + n) (handed.len - (handed.pos + n))
            ++ lines (k.terminals id).input_queue)
unfolding tty_copy_line
tty_copy_line-lost id proc k handed kept given holds part =
    let short : ltb (k.procs proc).tty_read_len (handed.len - handed.pos) ≡ true = ground arith in
    let more : ltb (handed.pos + (k.procs proc).tty_read_len) handed.len ≡ true = ground arith in
    rw (given, short, holds, ==_refl id, more) (refl, refl, refl)
