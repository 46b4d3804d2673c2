-- ===== src/Ipc/Tests.antt =====
-- The objects on the sample kernel: slot 0 holds a pipe with three bytes, slot 1 a free lock.
use yalnix.Base.{
  ℕ, zero, suc, ◌+◌, ◌^◌, ◌≤◌, ◌≡◌, refl, true, none, some, [], ◌∷◌, inl, arith, ◌==◌, ltb,
  if◌then◌else◌, pos, bytes,
}
use yalnix.Hardware.Sample.{sample}
use yalnix.State.{Kernel, IpcObject, free, pipe, lock, PipeState, LockState}
use yalnix.State.Sample.{three_processes}
use yalnix.Ipc.{get_pipe, alloc_object, ipc_max_objects}
use yalnix.Ipc.Objects.{Slot, alloc_object-Slot}
use yalnix.Ipc.Pipe.{pipe_ensure_capacity, double_until, sys_pipe_read, sys_pipe_write, new_pipe}
use yalnix.Ipc.Pipe.Capacity.{Roomy, pipe_ensure_capacity-Roomy, double_until-none}
use yalnix.Ipc.Pipe.Contents.{IsPipe, Written, Read, sys_pipe_write-Written, sys_pipe_read-Read}
use yalnix.Ipc.Lock.{new_lock, sys_release, ipc_process_exit}
use yalnix.Ipc.Lock.Handoff.{
  Released, release_each, let_go, sys_release-Released, ipc_process_exit-let_go,
}
use yalnix.Ipc.Invariant.{AllSound}
use yalnix.Ipc.Invariant.Run.{after, pipe_write, after-AllSound}

abbrev three_bytes : PipeState
three_bytes = record new_pipe { buf = λ i. i + 7; len = 3 }

three_bytes-IsPipe : IsPipe three_bytes
three_bytes-IsPipe = record { some_room = omega arith; int_cap = omega arith; within = omega arith }

abbrev objects : ℕ → IpcObject
objects zero = pipe three_bytes
objects (suc zero) = lock new_lock
objects _ = free

abbrev two_objects : Kernel
two_objects = record three_processes { objects = objects }

objects-AllSound : AllSound objects
objects-AllSound zero = (three_bytes-IsPipe, inl refl)
objects-AllSound (suc zero) = (tt, inl refl)
objects-AllSound (suc (suc i)) = tt

alloc_object-Slot_example : Slot objects 0 ipc_max_objects (alloc_object two_objects)
alloc_object-Slot_example = alloc_object-Slot two_objects

pipe_ensure_capacity_example :
    Roomy true three_bytes 1000 (pipe_ensure_capacity true three_bytes 1000)
pipe_ensure_capacity_example =
    pipe_ensure_capacity-Roomy true three_bytes 1000 (omega arith) (omega arith) (omega arith)

double_until_example : double_until 1000 256 0x4000_0001 ≡ none
double_until_example = double_until-none 1000 256 22 0x4000_0001 refl (omega arith) (omega arith)

-- An empty pipe that process 3 waits for.
abbrev awaited : PipeState
awaited = record new_pipe { readers = 3 ∷ [] }

awaited-IsPipe : IsPipe awaited
awaited-IsPipe = record { some_room = omega arith; int_cap = omega arith; within = omega arith }

abbrev with_reader : Kernel
with_reader = record three_processes { objects = λ i. if i == 0 then pipe awaited else free }

sys_pipe_write_example :
    Written 0 2
      (bytes (with_reader.procs 2).space 40 2)
      awaited
      with_reader
      (sys_pipe_write true (pos 0) 40 (pos 2) with_reader)
sys_pipe_write_example =
    sys_pipe_write-Written 0 40 2 with_reader awaited awaited-IsPipe refl (omega arith)
      (omega arith) (omega arith) (omega arith) ((omega arith, omega arith, refl), tt)

sys_pipe_read_example :
    Read 0 40 2 two_objects three_bytes three_bytes-IsPipe 2
      (sys_pipe_read (pos 0) 40 (pos 2) two_objects)
sys_pipe_read_example =
    sys_pipe_read-Read 0 40 2 two_objects three_bytes three_bytes-IsPipe refl (omega arith)
      (omega arith) (omega arith) (omega arith) refl (omega arith) (omega arith)

room_left : (p : PipeState) → get_pipe (pos 0) two_objects ≡ some p → p.len + 2 ≤ 2 ^ 30
unfolding get_pipe
room_left p e = let same : three_bytes ≡ p = cc in rw (← same) (omega arith)

after-AllSound_example : AllSound (after (pipe_write true (pos 0) 40 (pos 2)) two_objects).objects
after-AllSound_example =
    after-AllSound (pipe_write true (pos 0) 40 (pos 2)) two_objects (omega arith, omega arith)
      (omega arith) room_left objects-AllSound

-- A lock that process 2 holds and process 3 waits for.
abbrev held : LockState
held = record { owner = 2; waiters = 3 ∷ [] }

abbrev with_lock : Kernel
with_lock = record three_processes { objects = λ i. if i == 7 then lock held else free }

sys_release_example : Released 7 held with_lock (sys_release (pos 7) with_lock)
sys_release_example =
    sys_release-Released 7 held with_lock (omega arith) refl (omega arith, omega arith, refl)

ipc_process_exit_example :
    (ipc_process_exit 2 with_lock ≡ release_each 128 0 with_lock)
    × ((j : ℕ)
        → (ipc_process_exit 2 with_lock).objects j
          ≡ (if ltb j 128 then let_go 2 (with_lock.objects j) else with_lock.objects j))
ipc_process_exit_example = ipc_process_exit-let_go with_lock
