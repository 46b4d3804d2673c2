-- ===== src/Tty.antt =====
-- src/tty.c: the terminals. What the hardware receives is a parameter of the handler; what it is
-- given to transmit is kept in `transmitted`. Line lengths and positions are `int`s that never are
-- negative, and a line's position never passes its length.
pub mod Input
pub mod Output
pub mod Receive
pub mod Write
mod Tests
use yalnix.Base.{
  ℕ, ◌+◌, ◌-◌, Bool, true, false, not, ◌&&◌, ◌||◌, Option, none, some, List, [], ◌∷◌, ◌++◌, ◌==◌,
  leb, ltb, if◌then◌else◌, update, ℤ, pos, is_neg, to_ℕ, copy, bytes,
}
use yalnix.Hardware.{Hardware}
use yalnix.State.{
  Kernel, Pcb, ProcState, Resume, in_tty_read, in_tty_write, QueueRef, tty_readers, tty_writers,
  TtyLine, TtyState, modify, set_reg0, set_state, error,
}
use yalnix.Queue.Fifo.{push_back}
use yalnix.Process.{process_make_ready, process_schedule}
use yalnix.Ipc.{Outcome, returned, switched, no_process}

abbrev pub put_tty : ℕ → TtyState → Kernel → Kernel
put_tty id t k = record k { terminals = update k.terminals id t }

-- A line that the reader was given, or else the terminal's next one.
abbrev next_input : TtyState → List TtyLine → Option TtyLine × TtyState
next_input t [] = (none, t)
next_input t (l ∷ q) = (some l, record t { input_queue = q })

abbrev next_of : TtyState → Option TtyLine → Option TtyLine × TtyState
next_of t none = next_input t t.input_queue
next_of t (some l) = (some l, record t { line = none })

pub tty_next_line : TtyState → Option TtyLine × TtyState
tty_next_line t = next_of t t.line

abbrev pub or_next_line : TtyState → Option TtyLine → Option TtyLine × TtyState
or_next_line t none = tty_next_line t
or_next_line t (some l) = (some l, t)

-- How much of a line a reader of at most `len` bytes gets.
abbrev pub line_count : TtyLine → (len : ℕ) → ℕ
line_count l len = if ltb len (l.len - l.pos) then len else l.len - l.pos

-- The rest of a line stays with the terminal.
abbrev pub keep_rest : TtyLine → (count : ℕ) → TtyState → TtyState
keep_rest l count t = record t {
  line = if ltb (l.pos + count) l.len then some (record l { pos = l.pos + count }) else t.line;
}

abbrev pub copy_line : (id proc : ℕ) → Kernel → Option TtyLine × TtyState → Option ℕ × Kernel
copy_line id proc k (none, t) = (none, k)
copy_line id proc k (some l, t) =
    let count = line_count l (k.procs proc).tty_read_len in
    (
      some count,
      put_tty id (keep_rest l count t) (
          modify proc
            (λ b. record b {
              space = copy b.space b.tty_read_buf l.bytes l.pos count;
              tty_read_line = none;
            })
            k),
    )

pub tty_copy_line : (id proc : ℕ) → Kernel → Option ℕ × Kernel
tty_copy_line id proc k =
    copy_line id proc k (or_next_line (k.terminals id) (k.procs proc).tty_read_line)

module _ ⦃hw : Hardware⦄ where
  -- TtyInit
  unfoldable pub tty_init : Kernel → Kernel
  tty_init k = record k {
    terminals = λ i.
        let t = k.terminals i in
        if leb hw.num_terminals i then t else record t {
          read_queue = [];
          write_queue = [];
          input_queue = [];
          line = none;
          writer = 0;
          busy = false;
        };
  }

  abbrev pub tty_valid : ℤ → Bool
  tty_valid id = not (is_neg id) && ltb (to_ℕ id) hw.num_terminals

  -- What the loop of SysTtyRead does with the result of TtyCopyLine.
  abbrev pub read_or_wait : (id : ℕ) → Option ℕ × Kernel → Outcome × Kernel
  read_or_wait id (some count, k) = (returned (pos count), k)
  read_or_wait id (none, k) =
      let t = k.terminals id in
      (
        switched,
        process_schedule (in_tty_read id) (
            put_tty id (record t { read_queue = push_back t.read_queue k.current })
              (modify k.current
                (λ b. record b { state = ProcState.blocked; block_queue = some (tty_readers id) })
                k)),
      )

  -- The loop of SysTtyRead, first and after every wait.
  pub tty_read_loop : (id : ℕ) → Kernel → Outcome × Kernel
  tty_read_loop id k = read_or_wait id (tty_copy_line id k.current k)

  abbrev pub refused : ℤ → (buf : ℕ) → ℤ → Bool
  refused id buf len = not (tty_valid id) || (is_neg len || (buf == 0 && not (to_ℕ len == 0)))

  pub sys_tty_read : ℤ → (buf : ℕ) → ℤ → Kernel → Outcome × Kernel
  sys_tty_read id buf len k =
      if refused id buf len
      then (returned error, k)
      else if to_ℕ len == 0
      then (returned (pos 0), k)
      else if no_process k
      then (returned error, k)
      else tty_read_loop (to_ℕ id) (
          modify k.current
            (λ b. record b { tty_id = to_ℕ id; tty_read_buf = buf; tty_read_len = to_ℕ len }) k)

  -- The end of TtyStartWrite: the next chunk goes to the hardware.
  pub transmit : (id writer : ℕ) → Kernel → Kernel
  transmit id writer k =
      let t = k.terminals id in
      let b = k.procs writer in
      let left = b.tty_write_len - b.tty_write_offset in
      let chunk = if ltb hw.terminal_max_line left then hw.terminal_max_line else left in
      put_tty id
        (record t {
          busy = true;
          transmitted = bytes b.tty_write_buf b.tty_write_offset chunk ∷ t.transmitted;
        })
        (modify writer (λ b. record b { tty_write_offset = b.tty_write_offset + chunk }) k)

  abbrev pub all_sent : (writer : ℕ) → Kernel → Bool
  all_sent writer k = leb (k.procs writer).tty_write_len (k.procs writer).tty_write_offset

  abbrev pub set_writer : (id writer : ℕ) → Kernel → Kernel
  set_writer id writer k = put_tty id (record (k.terminals id) { writer = writer }) k

  -- The process that TtyStartWrite takes from the queue of writers.
  abbrev pub take_writer : (id writer : ℕ) → List ℕ → Kernel → Kernel
  take_writer id p q k =
      put_tty id (record (k.terminals id) { writer = p; write_queue = q })
        (modify p (λ b. record b { block_queue = none }) k)

  -- TtyStartWrite on a terminal that is not busy and has no writer, along its queue of writers.
  pub start_queued : (id : ℕ) → List ℕ → Kernel → Kernel
  start_queued id [] k = k
  start_queued id (p ∷ q) k =
      let k₁ = take_writer id p q k in
      let rest = start_queued id q (process_make_ready p (set_writer id 0 k₁)) in
      if all_sent p k₁ then rest else transmit id p k₁

  pub tty_start_write : (id : ℕ) → Kernel → Kernel
  tty_start_write id k =
      let t = k.terminals id in
      if t.busy
      then k
      else if t.writer == 0
      then start_queued id t.write_queue k
      else if all_sent t.writer k
      then start_queued id t.write_queue (process_make_ready t.writer (set_writer id 0 k))
      else transmit id t.writer k

  -- What SysTtyWrite notes of the write in the PCB.
  abbrev pub note_write : (id buf len : ℕ) → Pcb → Pcb
  note_write id buf len b = record (set_reg0 (pos len) b) {
    tty_write_buf = copy (λ _. 0) 0 b.space buf len;
    tty_id = id;
    tty_write_len = len;
    tty_write_offset = 0;
    state = ProcState.blocked;
  }

  -- The writer starts at once or waits for its turn.
  abbrev pub start_or_wait : (id : ℕ) → Kernel → Kernel
  start_or_wait id k =
      let t = k.terminals id in
      if t.writer == 0 && not t.busy
      then tty_start_write id (set_writer id k.current k)
      else put_tty id (record t { write_queue = push_back t.write_queue k.current })
          (modify k.current (λ b. record b { block_queue = some (tty_writers id) }) k)

  pub sys_tty_write : (malloc_ok : Bool) → ℤ → (buf : ℕ) → ℤ → Kernel → Outcome × Kernel
  sys_tty_write malloc_ok id buf len k =
      if refused id buf len
      then (returned error, k)
      else if to_ℕ len == 0
      then (returned (pos 0), k)
      else if no_process k || not malloc_ok
      then (returned error, k)
      else (
        switched,
        process_schedule (in_tty_write (to_ℕ len))
            (start_or_wait (to_ℕ id) (modify k.current (note_write (to_ℕ id) buf (to_ℕ len)) k)),
      )

  -- The end of SysTtyWrite, behind its wait.
  pub tty_write_resume : (len : ℕ) → Kernel → Outcome × Kernel
  tty_write_resume len k = (
    returned (pos len),
    modify k.current
        (λ b. record b { tty_write_buf = λ _. 0; tty_write_len = 0; tty_write_offset = 0 }) k,
  )

  -- A received line goes to the longest waiting reader, or into the queue of lines.
  abbrev pub deliver_line : (id : ℕ) → TtyLine → List ℕ → Kernel → Kernel
  deliver_line id l [] k =
      let t = k.terminals id in put_tty id (record t { input_queue = t.input_queue ++ l ∷ [] }) k
  deliver_line id l (p ∷ q) k = process_make_ready p (
      modify p (λ b. record b { block_queue = none; tty_read_line = some l })
        (put_tty id (record (k.terminals id) { read_queue = q }) k))

  -- `received` is what TtyReceive returns, and `line_data` what it writes.
  pub trap_tty_receive :
      (code : ℤ) (calloc_ok : Bool) (received : ℤ) (line_data : ℕ → ℕ) → Kernel → Kernel
  trap_tty_receive code calloc_ok received line_data k =
      if not (tty_valid code) || (not calloc_ok || is_neg received)
      then k
      else deliver_line (to_ℕ code) (record { len = to_ℕ received; pos = 0; bytes = line_data })
          (k.terminals (to_ℕ code)).read_queue k

  -- The writer whose last chunk went out is woken.
  abbrev pub end_write : (id writer : ℕ) → Kernel → Kernel
  end_write id w k =
      if all_sent w k
      then process_make_ready w
          (set_writer id 0 (modify w (λ b. set_reg0 (pos b.tty_write_len) b) k))
      else k

  pub trap_tty_transmit : (code : ℤ) → Kernel → Kernel
  trap_tty_transmit code k =
      if not (tty_valid code)
      then k
      else (let id = to_ℕ code in
          let k₁ = put_tty id (record (k.terminals id) { busy = false }) k in
          let w = (k₁.terminals id).writer in
          tty_start_write id (if w == 0 then k₁ else end_write id w k₁))
