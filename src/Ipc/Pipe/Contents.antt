-- ===== src/Ipc/Pipe/Contents.antt =====
-- A pipe is a queue of bytes: what SysPipeWrite puts in, SysPipeRead takes out in order.
use yalnix.Base.{
  ℕ, ◌+◌, ◌-◌, ◌%◌, ◌^◌, ◌≤◌, ◌<◌, ◌≡◌, refl, sym, ap₂, ◌∙◌, ◌≢◌, true, false, List, [], ◌++◌,
  arith, ◌==◌, leb, ltb, signed_leb, int_of, ap, if◌then◌else◌, update, pos, bytes, bytes-append,
  bytes-shift, bytes-copy, bytes-copy_before, copy, ==_refl,
}
use yalnix.Hardware.{Hardware}
use yalnix.State.{Kernel, pipe, PipeState}
use yalnix.Ipc.{Outcome, returned, no_process, get_pipe}
use yalnix.Ipc.Objects.{wake_all-objects}
use yalnix.Ipc.Wake.{AllCanRun, AllAwake, wake_all-Awake}
use yalnix.Ipc.Pipe.{
  Ensured, roomy, no_memory, no_end, pipe_ensure_capacity, deliver, move_down, pipe_read_loop,
  sys_pipe_read, sys_pipe_write, fill,
}
use yalnix.Ipc.Pipe.Capacity.{Roomy, pipe_ensure_capacity-Roomy}

pub contents : PipeState → List ℕ
contents p = bytes p.buf 0 p.len

-- A pipe's capacity is an `int` above zero, and holds its bytes.
pub record IsPipe (p : PipeState) : Type 0 where
  pub some_room : 0 < p.cap
  pub int_cap : p.cap < 2 ^ 31
  pub within : p.len ≤ p.cap

-- Slot `id` holds the pipe `q`, and every other slot is as before.
abbrev pub Holds : (id : ℕ) (q : PipeState) → (before after : Kernel) → Type 0
Holds id q before after =
    (after.objects id ≡ pipe q) × ((j : ℕ) → j ≢ id → after.objects j ≡ before.objects j)

-- What a write of the bytes `bs` of number `n` gives.
abbrev pub Written : (id n : ℕ) → List ℕ → PipeState → Kernel → Outcome × Kernel → Type 0
Written id n bs p k (o, k') =
    (o ≡ returned (pos n))
    × (q : PipeState) × Holds id q k k'
    × (contents q ≡ contents p ++ bs)
    × (q.readers ≡ [])
    × AllAwake p.readers k'
    × IsPipe q

module _ ⦃hw : Hardware⦄ (id buf n : ℕ) (k : Kernel) (p : PipeState) (v : IsPipe p) where
  fill-Written :
      (q : PipeState)
      → p.len + n ≤ 2 ^ 30
      → AllCanRun p.readers k
      → Roomy true p (p.len + n) (roomy q)
      → Written id n (bytes (k.procs k.current).space buf n) p k (fill id buf n k (roomy q))
  unfolding contents
  fill-Written q small can (room, more, int_cap, len, readers, same) = (
    refl,
    q',
    (
      rw (wake_all-objects q.readers _) (ground arith),
      λ j ne. rw (wake_all-objects q.readers _) (ground arith),
    ),
    appended,
    refl,
    rw readers (wake_all-Awake p.readers _ can),
    record { some_room = omega arith; int_cap = int_cap; within = omega arith },
  )
    where
      q' : PipeState
      q' = record q {
        buf = copy q.buf q.len (k.procs k.current).space buf n;
        len = (q.len + n) % 2 ^ 32;
        readers = [];
      }

      from_zero : 0 + p.len ≡ p.len
      from_zero = omega arith

      appended : contents q' ≡ contents p ++ bytes (k.procs k.current).space buf n
      appended =
          let whole : (q.len + n) % 2 ^ 32 ≡ p.len + n = omega arith in
          let space = (k.procs k.current).space in
          rw (whole, len)
            (bytes-append (copy q.buf p.len space buf n) 0 p.len n
              ∙ ap₂ ◌++◌
                  (bytes-copy_before q.buf p.len space buf n
                    ∙ bytes-shift q.buf p.buf 0 0 p.len (λ i lt. ground (arith, same i)))
                  (rw from_zero (bytes-copy q.buf p.len space buf n)))

  -- A write of `n` bytes to a pipe whose slot is known, with memory to be had, no more than 2^30 bytes in
  -- all, and waiting readers that can run: it returns `n`, appends the bytes to the pipe, takes every
  -- reader that waits off the pipe's queue and makes it ready, in the ready queue, and touches no other object.
  pub sys_pipe_write-Written :
      k.objects id ≡ pipe p
      → id < 128
      → buf ≢ 0
      → 0 < n
      → p.len + n ≤ 2 ^ 30
      → AllCanRun p.readers k
      → Written id n
          (bytes (k.procs k.current).space buf n)
          p
          k
          (sys_pipe_write true (pos id) buf (pos n) k)
  unfolding sys_pipe_write get_pipe
  sys_pipe_write-Written at in_table nz some_bytes small can =
      let here : leb 128 id ≡ false = ground arith in
      let ok : (buf == 0) ≡ false = ground arith in
      let more : (n == 0) ≡ false = ground arith in
      let whole : (p.len + n) % 2 ^ 32 ≡ p.len + n = omega arith in
      rw (here, ok, more, at, whole)
        (ensured (pipe_ensure_capacity true p (p.len + n))
          (pipe_ensure_capacity-Roomy true p (p.len + n) v.some_room v.int_cap small))
    where
      ensured :
          (e : Ensured)
          → Roomy true p (p.len + n) e
          → Written id n (bytes (k.procs k.current).space buf n) p k (fill id buf n k e)
      ensured (roomy q) r = fill-Written q small can r
      ensured no_memory r = cc
      ensured no_end r = absurd r

  -- What a read of at most `n` bytes gives: the bytes that the reader gets, then those that stay, are
  -- the pipe's bytes.
  pub Read : ℕ → Outcome × Kernel → Type 0
  Read count (o, k') =
      (o ≡ returned (pos count))
      × (q : PipeState) × Holds id q k k'
      × (bytes (k'.procs k.current).space buf count ++ contents q ≡ contents p)
      × IsPipe q

  deliver-Read :
      (count : ℕ)
      → count ≡ (if signed_leb p.len n then p.len else n)
      → n < 2 ^ 31
      → p.len ≤ n + n
      → Read count (deliver id buf n p k)
  unfolding deliver contents Read
  deliver-Read count e int half = rw (← e) (
    ap returned number,
    q,
    (ground arith, ground arith),
    taken,
    record { some_room = v.some_room; int_cap = v.int_cap; within = omega (arith, v.within) },
  )
    where
      q : PipeState
      q = record p {
        buf = if p.len == count then p.buf else move_down count (p.len - count) p.buf;
        len = p.len - count;
      }

      order : signed_leb p.len n ≡ leb p.len n
      order =
          let a : (p.len + 2 ^ 31) % 2 ^ 32 ≡ p.len + 2 ^ 31 = omega (arith, v.within, v.int_cap) in
          let b : (n + 2 ^ 31) % 2 ^ 32 ≡ n + 2 ^ 31 = omega (arith, int) in
          rw (a, b) (ground arith)

      lesser : count ≡ (if leb p.len n then p.len else n)
      lesser = rw order at e

      le : count ≤ p.len
      le = ground (arith, lesser)

      number : int_of count ≡ pos count
      number = let a : ltb count (2 ^ 31) ≡ true = ground (arith, lesser, int) in rw a refl

      moved : leb (p.len - count) count ≡ true
      moved = ground (arith, lesser, half)

      rest : bytes q.buf 0 q.len ≡ bytes p.buf count (p.len - count)
      rest = bytes-shift q.buf p.buf 0 count (p.len - count) λ i lt.
          let z : 0 + i ≡ i = omega arith in
          let far : (p.len == count) ≡ false = ground arith in rw (far, moved) (ground arith)

      parts : bytes p.buf 0 count ++ bytes p.buf count (p.len - count) ≡ bytes p.buf 0 p.len
      parts =
          let z : 0 + count ≡ count = omega arith in
          let all : count + (p.len - count) ≡ p.len = omega (arith, le) in
          let split = bytes-append p.buf 0 count (p.len - count) in sym (rw (z, all) at split)

      taken :
          bytes
              (update k.procs k.current
                (record (k.procs k.current) {
                  space = copy (k.procs k.current).space buf p.buf 0 count;
                })
                k.current).space
              buf
              count
            ++ contents q
          ≡ contents p
      taken =
          rw (==_refl k.current)
            (ap₂ ◌++◌ (bytes-copy (k.procs k.current).space buf p.buf 0 count) rest ∙ parts)

  loop-deliver :
      k.objects id ≡ pipe p
      → id < 128
      → 0 < p.len
      → pipe_read_loop id buf n k ≡ deliver id buf n p k
  unfolding pipe_read_loop get_pipe
  loop-deliver at in_table full =
      let here : leb 128 id ≡ false = ground arith in
      let held : (p.len == 0) ≡ false = ground arith in
      rw (here, pipe_read_loop) (rw (at, pipe_read_loop) (rw held))

  -- A read of at most `n` bytes, an `int`, from a pipe that holds some and no more than twice as many, so that the
  -- rest is moved to the front without an overlap: it returns the lesser of `n` and the pipe's length; what the reader gets, followed by what the pipe then holds, is what it held before. No
  -- other object is touched.
  pub sys_pipe_read-Read :
      k.objects id ≡ pipe p
      → id < 128
      → buf ≢ 0
      → 0 < n
      → 0 < p.len
      → no_process k ≡ false
      → n < 2 ^ 31
      → p.len ≤ n + n
      → Read (if signed_leb p.len n then p.len else n) (sys_pipe_read (pos id) buf (pos n) k)
  unfolding sys_pipe_read
  sys_pipe_read-Read at in_table nz some_bytes full user int half =
      let ok : (buf == 0) ≡ false = ground arith in
      let more : (n == 0) ≡ false = ground arith in
      rw (ok, more, user, loop-deliver at in_table full) (deliver-Read _ refl int half)
