-- ===== src/Ipc.antt =====
-- src/ipc.c: the table of IPC objects, and what its system calls share. A system call gives the
-- value it returns, or `switched`: it has called ProcessSchedule, and goes on where its process's
-- saved kernel context says when that process is switched to.
pub mod Invariant
pub mod Objects
pub mod Pipe
pub mod Wake
pub mod Lock
pub mod Cvar
mod Tests
use yalnix.Base.{
  ℕ, zero, suc, ◌+◌, Bool, true, false, ◌||◌, Option, none, some, List, [], ◌∷◌, ◌==◌, leb,
  if◌then◌else◌, update, ℤ, pos, is_neg, to_ℕ,
}
use yalnix.Hardware.{Hardware}
use yalnix.State.{
  Kernel, Pcb, ProcState, Resume, QueueRef, IpcObject, free, pipe, lock, cvar, PipeState, LockState,
  modify, set_reg0, success,
}
use yalnix.Process.{process_make_ready, process_schedule}

abbrev pub ipc_max_objects : ℕ
ipc_max_objects = 128

-- `hangs`: the call never returns.
pub data Outcome : Type 0 where
  returned : ℤ → Outcome
  switched hangs : Outcome

abbrev pub put_object : ℕ → IpcObject → Kernel → Kernel
put_object id o k = record k { objects = update k.objects id o }

abbrev pub is_free : IpcObject → Bool
is_free free = true
is_free _ = false

-- IpcInit
unfoldable pub ipc_init : Kernel → Kernel
ipc_init k = record k { objects = λ i. if leb ipc_max_objects i then k.objects i else free }

-- The lowest free slot of the `left` slots from `i` on.
pub free_slot : (left i : ℕ) → (ℕ → IpcObject) → Option ℕ
free_slot zero i objects = none
free_slot (suc left) i objects =
    if is_free (objects i) then some i else free_slot left (i + 1) objects

-- AllocObject, without the write of the type: its callers fill the slot.
pub alloc_object : Kernel → Option ℕ
alloc_object k = free_slot ipc_max_objects 0 k.objects

abbrev pub out_of_range : ℤ → Bool
out_of_range id = is_neg id || leb ipc_max_objects (to_ℕ id)

-- GetObject(id, IPC_PIPE), GetObject(id, IPC_LOCK) and GetObject(id, IPC_CVAR).
abbrev pub as_pipe : IpcObject → Option PipeState
as_pipe (pipe p) = some p
as_pipe _ = none

abbrev pub as_lock : IpcObject → Option LockState
as_lock (lock l) = some l
as_lock _ = none

abbrev pub as_cvar : IpcObject → Option (List ℕ)
as_cvar (cvar q) = some q
as_cvar _ = none

unfoldable pub get_pipe : ℤ → Kernel → Option PipeState
get_pipe id k = if out_of_range id then none else as_pipe (k.objects (to_ℕ id))

unfoldable pub get_lock : ℤ → Kernel → Option LockState
get_lock id k = if out_of_range id then none else as_lock (k.objects (to_ℕ id))

unfoldable pub get_cvar : ℤ → Kernel → Option (List ℕ)
get_cvar id k = if out_of_range id then none else as_cvar (k.objects (to_ℕ id))

-- WakeOne, of the process at the head of a queue; its caller takes it out of the queue.
unfoldable pub wake : ℕ → Kernel → Kernel
wake p k =
    process_make_ready p (modify p (λ b. record (set_reg0 success b) { block_queue = none }) k)

-- WakeAll
pub wake_all : List ℕ → Kernel → Kernel
wake_all [] k = k
wake_all (p ∷ q) k = wake_all q (wake p k)

module _ ⦃hw : Hardware⦄ where
  -- BlockOnQueue: the caller has put the current process at the end of the queue `ref`.
  pub block_on : QueueRef → Resume → Kernel → Kernel
  block_on ref resume k =
      process_schedule resume
        (modify k.current (λ b. record b { state = ProcState.blocked; block_queue = some ref }) k)

abbrev pub no_process : Kernel → Bool
no_process k = k.current == 0 || k.current == k.idle
