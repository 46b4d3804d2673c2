-- ===== src/Tty/Output.antt =====
-- Terminal output: the interrupts that follow a write send all of it, in order, and then wake the
-- writer.
use yalnix.Base.{
  ℕ, zero, suc, ◌+◌, ◌-◌, ◌*◌, ◌≤◌, ◌<◌, ◌≡◌, refl, sym, ap, ◌∙◌, ◌≢◌, true, false, List, [], ◌∷◌,
  ◌++◌, arith, ◌==◌, leb, ltb, if◌then◌else◌, pos, bytes, bytes-append, ==_refl, append_assoc,
}
use yalnix.Hardware.{Hardware}
use yalnix.State.{Kernel, ProcState, modify, set_reg0, is_zombie}
use yalnix.Process.{process_make_ready}
use yalnix.Process.Ready.{make_ready-Awake}
use yalnix.Tty.Receive.{process_make_ready-terminals}
use yalnix.Tty.{
  put_tty, tty_valid, transmit, set_writer, start_queued, tty_start_write, trap_tty_transmit,
}

-- The chunks that were transmitted, latest first, in one.
abbrev pub flat : List (List ℕ) → List ℕ
flat [] = []
flat (c ∷ cs) = flat cs ++ c

-- The process `p` writes the `len` bytes of `buf` to the terminal `id`, behind what `before` it was
-- sent: `offset` of them were given to the hardware, which is busy; no process waits for its turn.
pub record Sending (id p : ℕ) (before : List ℕ) (buf : ℕ → ℕ) (len offset : ℕ) (k : Kernel)
    : Type 0 where
  pub some_p : p ≢ 0
  pub user : p ≢ k.idle
  pub alive : is_zombie (k.procs p).state ≡ false
  pub writer : (k.terminals id).writer ≡ p
  pub busy : (k.terminals id).busy ≡ true
  pub queue : (k.terminals id).write_queue ≡ []
  pub holds : (k.procs p).tty_write_buf ≡ buf
  pub total : (k.procs p).tty_write_len ≡ len
  pub done : (k.procs p).tty_write_offset ≡ offset
  pub within : offset ≤ len
  pub sent : flat (k.terminals id).transmitted ≡ before ++ bytes buf 0 offset

-- The terminal is free, all of it was sent, and the writer is ready, with its count to return.
pub record Sent (id p : ℕ) (before : List ℕ) (buf : ℕ → ℕ) (len : ℕ) (k : Kernel) : Type 0 where
  pub writer : (k.terminals id).writer ≡ 0
  pub idle : (k.terminals id).busy ≡ false
  pub sent : flat (k.terminals id).transmitted ≡ before ++ bytes buf 0 len
  pub ready : (k.procs p).state ≡ ProcState.ready
  pub result : (k.procs p).user_context.regs 0 ≡ pos len

process_make_ready-context :
    (p : ℕ) (k : Kernel)
    → ((process_make_ready p k).procs p).user_context ≡ (k.procs p).user_context
unfolding process_make_ready
process_make_ready-context p k = ground arith

module _ ⦃hw : Hardware⦄ where
  abbrev freed : ℕ → Kernel → Kernel
  freed id k = put_tty id (record (k.terminals id) { busy = false }) k

  abbrev pub chunk : (len offset : ℕ) → ℕ
  chunk len offset =
      if ltb hw.terminal_max_line (len - offset) then hw.terminal_max_line else len - offset

  module _ (id p : ℕ) (before : List ℕ) (buf : ℕ → ℕ) (len offset : ℕ) (k : Kernel) where
    trap-transmit :
        tty_valid (pos id) ≡ true
        → offset < len
        → Sending id p before buf len offset k
        → trap_tty_transmit (pos id) k ≡ transmit id p (freed id k)
    unfolding trap_tty_transmit tty_start_write
    trap-transmit valid more s =
        let z : (p == 0) ≡ false = ground (arith, s.some_p) in
        let unsent : leb len offset ≡ false = ground arith in
        rw (valid, ==_refl id, s.writer, z, s.total, s.done, unsent)
          (rw (==_refl id, z, s.total, s.done, unsent) refl)

    more_sent :
        {out : List ℕ}
        → out ≡ before ++ bytes buf 0 offset
        → out ++ bytes buf offset (chunk len offset)
          ≡ before ++ bytes buf 0 (offset + chunk len offset)
    more_sent e =
        let z : 0 + offset ≡ offset = omega arith in
        ap (λ bs. bs ++ bytes buf offset (chunk len offset)) e
        ∙ append_assoc before (bytes buf 0 offset) (bytes buf offset (chunk len offset))
        ∙ ap (λ bs. before ++ bs) (sym (rw z at (bytes-append buf 0 offset (chunk len offset))))

    transmit-Sending :
        Sending id p before buf len offset k
        → Sending id p before buf len (offset + chunk len offset) (transmit id p (freed id k))
    unfolding transmit
    transmit-Sending s =
        rw (==_refl id, s.total, s.done, s.holds)
          (record {
            some_p = s.some_p;
            user = s.user;
            alive = rw (==_refl p) s.alive;
            writer = rw (==_refl id) s.writer;
            busy = rw (==_refl id) refl;
            queue = rw (==_refl id) s.queue;
            holds = rw (==_refl p) refl;
            total = rw (==_refl p) refl;
            done = rw (==_refl p) refl;
            within = ground (arith, s.within);
            sent = rw (==_refl id) (more_sent s.sent);
          })

  module _ (id p : ℕ) (before : List ℕ) (buf : ℕ → ℕ) (len : ℕ) (k : Kernel) where
    woken : Kernel
    woken = set_writer id 0 (modify p (λ b. set_reg0 (pos b.tty_write_len) b) (freed id k))

    trap-last :
        tty_valid (pos id) ≡ true
        → Sending id p before buf len len k
        → trap_tty_transmit (pos id) k ≡ tty_start_write id (process_make_ready p woken)
    unfolding trap_tty_transmit woken
    trap-last valid s =
        let z : (p == 0) ≡ false = ground (arith, s.some_p) in
        let all : leb len len ≡ true = ground arith in
        rw (valid, ==_refl id, s.writer, z, s.total, s.done, all) refl

    nothing_next :
        Sending id p before buf len len k
        → tty_start_write id (process_make_ready p woken) ≡ process_make_ready p woken
    unfolding tty_start_write start_queued woken
    nothing_next s = rw (process_make_ready-terminals p _, ==_refl id) (rw s.queue refl)

    last-Sent :
        tty_valid (pos id) ≡ true
        → Sending id p before buf len len k
        → Sent id p before buf len (trap_tty_transmit (pos id) k)
    unfolding woken
    last-Sent valid s = rw (trap-last valid s ∙ nothing_next s) (record {
      writer = rw (process_make_ready-terminals p _, ==_refl id) refl;
      idle = rw (process_make_ready-terminals p _, ==_refl id) refl;
      sent = rw (process_make_ready-terminals p _, ==_refl id) s.sent;
      ready = (make_ready-Awake p woken s.some_p s.user (rw (==_refl p) s.alive)).0;
      result = rw (process_make_ready-context p _, ==_refl p, s.total) refl;
    })

  -- `n` transmit interrupts of the terminal `id`.
  pub interrupts : (n id : ℕ) → Kernel → Kernel
  interrupts zero id k = k
  interrupts (suc n) id k = interrupts n id (trap_tty_transmit (pos id) k)

  step-Sending :
      (id p : ℕ) (before : List ℕ) (buf : ℕ → ℕ) (len offset : ℕ) (k : Kernel)
      → tty_valid (pos id) ≡ true
      → offset < len
      → Sending id p before buf len offset k
      → Sending id p before buf len (offset + chunk len offset) (trap_tty_transmit (pos id) k)
  step-Sending id p before buf len offset k valid more s =
      rw (trap-transmit id p before buf len offset k valid more s)
        (transmit-Sending id p before buf len offset k s)

  -- A write in progress of which `offset` bytes were given to the hardware: `n` interrupts, `n` the
  -- number of further chunks that the rest of the `len` bytes takes, and one more leave the terminal
  -- free, with all the bytes sent in order, and the writer ready to return `len`. Nothing else happens
  -- to the terminal in between, and no other process waits to write.
  pub interrupts-Sent :
      (n id p : ℕ) (before : List ℕ) (buf : ℕ → ℕ) (len offset : ℕ) (k : Kernel)
      → tty_valid (pos id) ≡ true
      → len ≤ offset + n * hw.terminal_max_line
      → offset + n * hw.terminal_max_line < len + hw.terminal_max_line
      → Sending id p before buf len offset k
      → Sent id p before buf len (interrupts (suc n) id k)
  unfolding interrupts
  interrupts-Sent zero id p before buf len offset k valid enough tight s =
      let all : offset ≡ len = omega (arith, s.within) in
      last-Sent id p before buf len k valid (rw all at s)
  interrupts-Sent (suc n) id p before buf len offset k valid enough tight s =
      let size : suc n * hw.terminal_max_line ≡ n * hw.terminal_max_line + hw.terminal_max_line =
        omega arith in
      let more : offset < len = omega arith in
      interrupts-Sent n id p before buf len (offset + chunk len offset) _ valid (ground arith)
        (ground arith) (step-Sending id p before buf len offset k valid more s)
