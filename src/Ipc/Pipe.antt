-- ===== src/Ipc/Pipe.antt =====
-- Pipes: SysPipeInit, SysPipeRead, SysPipeWrite and PipeEnsureCapacity of src/ipc.c. Lengths are
-- `int`s, kept as 32-bit patterns.
pub mod Capacity
pub mod Contents
use yalnix.Base.{
  ℕ, zero, suc, ◌+◌, ◌-◌, ◌*◌, ◌%◌, ◌^◌, Bool, true, false, not, ◌&&◌, ◌||◌, Option, none, some,
  List, [], ◌==◌, leb, ltb, if◌then◌else◌, ℤ, pos, is_neg, to_ℕ, signed_leb, int_of, copy,
  store_int,
}
use yalnix.Hardware.{Hardware}
use yalnix.State.{
  Kernel, Resume, in_pipe_read, QueueRef, pipe_readers, IpcObject, pipe, PipeState, modify, error,
  success,
}
use yalnix.Queue.Fifo.{push_back}
use yalnix.Ipc.{
  Outcome, returned, switched, hangs, put_object, alloc_object, get_pipe, wake_all, block_on,
  no_process,
}

-- `new_cap *= 2` while `new_cap < needed`; `none` when the fuel runs out.
pub double_until : (fuel : ℕ) (new_cap needed : ℕ) → Option ℕ
double_until zero new_cap needed = none
double_until (suc fuel) new_cap needed =
    let more = double_until fuel (new_cap * 2 % 2 ^ 32) needed in
    if signed_leb needed new_cap then some new_cap else more

abbrev pub doubling_fuel : ℕ
doubling_fuel = 32

pub data Ensured : Type 0 where
  roomy : PipeState → Ensured
  no_memory no_end : Ensured

abbrev pub enlarge : (malloc_ok : Bool) → PipeState → Option ℕ → Ensured
enlarge malloc_ok p none = no_end
enlarge malloc_ok p (some new_cap) =
    if malloc_ok
    then roomy (record p { buf = copy (λ _. 0) 0 p.buf 0 p.len; cap = new_cap })
    else no_memory

-- PipeEnsureCapacity; `malloc_ok` says whether `malloc` finds the memory.
pub pipe_ensure_capacity : (malloc_ok : Bool) → PipeState → (needed : ℕ) → Ensured
pipe_ensure_capacity malloc_ok p needed =
    if signed_leb needed p.cap
    then roomy p
    else enlarge malloc_ok p (double_until doubling_fuel p.cap needed)

abbrev pub bad_buffer : (buf : ℕ) → ℤ → Bool
bad_buffer buf len = is_neg len || (buf == 0 && not (to_ℕ len == 0))

module _ ⦃hw : Hardware⦄ where
  abbrev pub new_pipe : PipeState
  new_pipe = record { buf = λ _. 0; len = 0; cap = hw.pipe_buffer_len; readers = [] }

  unfoldable pub sys_pipe_init : (malloc_ok : Bool) (pipe_idp : ℕ) → Kernel → Outcome × Kernel
  sys_pipe_init malloc_ok pipe_idp k =
      if pipe_idp == 0 then (returned error, k) else elim (alloc_object k) [
        | none ↦ (returned error, k)
        | some id ↦
            if malloc_ok
            then (
              returned success,
              modify k.current (λ b. record b { space = store_int pipe_idp (pos id) b.space })
                  (put_object id (pipe new_pipe) k),
            )
            else (returned error, k)
      ]

  -- `memcpy(buf, buf + count, left)`: the rest of the pipe goes to the front of its buffer.
  abbrev pub move_down : (count left : ℕ) → (ℕ → ℕ) → ℕ → ℕ
  move_down count left buf =
      if leb left count then copy buf 0 buf count left else hw.memcpy_overlapping buf count left

  -- The copy out of the pipe, and the copy within it.
  unfoldable pub deliver : (id buf len : ℕ) → PipeState → Kernel → Outcome × Kernel
  deliver id buf len p k =
      let count = if signed_leb p.len len then p.len else len in
      (
        returned (int_of count),
        put_object id
            (pipe (record p {
              buf = if p.len == count then p.buf else move_down count (p.len - count) p.buf;
              len = p.len - count;
            }))
            (modify k.current (λ b. record b { space = copy b.space buf p.buf 0 count }) k),
      )

  -- The loop of SysPipeRead from its test on, first and after every wait.
  unfoldable pub pipe_read_loop : (id buf len : ℕ) → Kernel → Outcome × Kernel
  pipe_read_loop id buf len k = elim (get_pipe (pos id) k) [
    | none ↦ (returned error, k)
    | some p ↦
        if p.len == 0
        then (
          switched,
          block_on (pipe_readers id) (in_pipe_read id buf len)
              (put_object id (pipe (record p { readers = push_back p.readers k.current })) k),
        )
        else deliver id buf len p k
  ]

  unfoldable pub sys_pipe_read : ℤ → (buf : ℕ) → ℤ → Kernel → Outcome × Kernel
  sys_pipe_read pipe_id buf len k =
      if bad_buffer buf len
      then (returned error, k)
      else if to_ℕ len == 0
      then (returned (pos 0), k)
      else if no_process k || is_neg pipe_id
      then (returned error, k)
      else pipe_read_loop (to_ℕ pipe_id) buf (to_ℕ len) k

  abbrev pub fill : (id buf len : ℕ) → Kernel → Ensured → Outcome × Kernel
  fill id buf len k no_memory = (returned error, k)
  fill id buf len k no_end = (hangs, k)
  fill id buf len k (roomy p) = (
    returned (pos len),
    wake_all p.readers (
        put_object id
          (pipe (record p {
            buf = copy p.buf p.len (k.procs k.current).space buf len;
            len = (p.len + len) % 2 ^ 32;
            readers = [];
          }))
          k),
  )

  unfoldable pub sys_pipe_write : (malloc_ok : Bool) → ℤ → (buf : ℕ) → ℤ → Kernel → Outcome × Kernel
  sys_pipe_write malloc_ok pipe_id buf len k =
      if bad_buffer buf len
      then (returned error, k)
      else if to_ℕ len == 0
      then (returned (pos 0), k)
      else elim (get_pipe pipe_id k) [
        | none ↦ (returned error, k)
        | some p ↦
            fill (to_ℕ pipe_id) buf (to_ℕ len) k
              (pipe_ensure_capacity malloc_ok p ((p.len + to_ℕ len) % 2 ^ 32))
      ]
