-- ===== src/Tty/Write.antt =====
-- A whole terminal write: from the call of SysTtyWrite to the wake-up of the writer.
use yalnix.Base.{ℕ, ◌≡◌, false, List, ◌++◌, pos, copy}
use yalnix.Hardware.{Hardware}
use yalnix.State.{Kernel, ProcState, modify, is_zombie}
use yalnix.Ipc.{Outcome, switched}
use yalnix.Tty.{note_write}
use yalnix.Tty.Output.{flat}

-- What the scheduler leaves alone: the terminals and the pending write of the process `p`, which
-- does not die.
record Keeps (p : ℕ) (k k' : Kernel) : Type 0 where
  terminals : k'.terminals ≡ k.terminals
  idle : k'.idle ≡ k.idle
  buf : (k'.procs p).tty_write_buf ≡ (k.procs p).tty_write_buf
  len : (k'.procs p).tty_write_len ≡ (k.procs p).tty_write_len
  offset : (k'.procs p).tty_write_offset ≡ (k.procs p).tty_write_offset
  alive : is_zombie (k.procs p).state ≡ false → is_zombie (k'.procs p).state ≡ false

-- What a whole write gives: the call gives up the processor; after the interrupts, `k₂`, the terminal
-- was sent the bytes behind what it was sent before, and is free; the writer is ready, and its count
-- stands in register 0.
abbrev pub Wrote : (id : ℕ) → List ℕ → (count : ℕ) → (k : Kernel) → Outcome → (k₂ : Kernel) → Type 0
Wrote id bs count k o k₂ =
    (o ≡ switched)
    × (flat (k₂.terminals id).transmitted ≡ flat (k.terminals id).transmitted ++ bs)
    × ((k₂.terminals id).writer ≡ 0)
    × ((k₂.terminals id).busy ≡ false)
    × ((k₂.procs k.current).state ≡ ProcState.ready)
    × ((k₂.procs k.current).user_context.regs 0 ≡ pos count)

module _ ⦃hw : Hardware⦄ (id buf len : ℕ) (k : Kernel) where
  abbrev noted : Kernel
  noted = modify k.current (note_write id buf len) k

  abbrev buffer : ℕ → ℕ
  buffer = copy (λ _. 0) 0 (k.procs k.current).space buf len
