-- ===== src/Tty/Tests.antt =====
-- The terminals on the sample kernel.
use yalnix.Base.{◌+◌, ◌++◌, ◌≡◌, refl, true, some, [], ◌∷◌, arith, update, pos, bytes}
use yalnix.Hardware.Sample.{sample}
use yalnix.State.{Kernel, TtyLine}
use yalnix.State.Sample.{blank_pcb, blank_terminal, three_processes}
use yalnix.Tty.{put_tty, sys_tty_read, trap_tty_receive, tty_copy_line}
use yalnix.Tty.Input.{Reads, rest, lines, unread, sys_tty_read-Reads}
use yalnix.Tty.Receive.{Received, trap_tty_receive-Received, tty_copy_line-lost}

-- A line of eight bytes, three of them read.
abbrev part_read : TtyLine
part_read = record { len = 8; pos = 3; bytes = λ i. i + 1 }

abbrev fresh_line : TtyLine
fresh_line = record { len = 6; pos = 0; bytes = λ i. i + 20 }

-- Terminal 0 holds the rest of one line, and another.
abbrev with_input : Kernel
with_input =
    put_tty 0 (record blank_terminal { line = some part_read; input_queue = fresh_line ∷ [] })
      three_processes

sys_tty_read_example : Reads 0 40 4 with_input (sys_tty_read (pos 0) 40 (pos 4) with_input)
sys_tty_read_example =
    sys_tty_read-Reads 0 40 4 with_input refl (omega arith) (omega arith) refl refl
      (omega arith, (omega arith, tt))

trap_tty_receive_example :
    Received 0
      (bytes (λ i. i) 0 9)
      []
      with_input
      (trap_tty_receive (pos 0) true (pos 9) (λ i. i) with_input)
trap_tty_receive_example = trap_tty_receive-Received 0 9 (λ i. i) with_input refl

-- The running process was handed a line, and asks for two bytes of it.
abbrev handed : Kernel
handed = record with_input {
  procs =
      update three_processes.procs 2
        (record blank_pcb { tty_read_buf = 40; tty_read_len = 2; tty_read_line = some fresh_line });
}

tty_copy_line_example :
    let (o, k') = tty_copy_line 0 2 handed in
    (o ≡ some 2)
    × (unread (handed.terminals 0) ≡ rest part_read ++ lines (fresh_line ∷ []))
    × (unread (k'.terminals 0) ≡ bytes (λ i. i + 20) 2 4 ++ lines (fresh_line ∷ []))
tty_copy_line_example = tty_copy_line-lost 0 2 handed fresh_line part_read refl refl (omega arith)
