-- ===== src/Queue.antt =====
-- src/Queue.c and src/Queue.h: intrusive circular doubly linked lists. Addresses are numbers and 0
-- is NULL; `links` holds the fields of every QueueEntry, and the `length` of every Queue, whose
-- head entry lies at the queue's own address. `length` is an `int`, kept as its 32-bit pattern.
pub mod Chain
pub mod Fifo
mod Tests
pub mod Frame
pub mod Trace
pub mod Refine
use yalnix.Base.{ℕ, ◌+◌, ◌-◌, ◌%◌, ◌^◌, Bool, ◌||◌, Option, none, some, ◌==◌, if◌then◌else◌, update}

pub record Links : Type 0 where
  pub prev : ℕ → ℕ
  pub next : ℕ → ℕ
  pub owner : ℕ → ℕ
  pub length : ℕ → ℕ

abbrev pub word : ℕ
word = 2 ^ 32

pub queue_init : Links → ℕ → Links
queue_init h q = record h {
  prev = update h.prev q q;
  next = update h.next q q;
  owner = update h.owner q 0;
  length = update h.length q 0;
}

pub queue_entry_init : Links → ℕ → ℕ → Links
queue_entry_init h e owner = record h {
  prev = update h.prev e 0;
  next = update h.next e 0;
  owner = update h.owner e owner;
}

pub queue_is_empty : Links → ℕ → Bool
queue_is_empty h q = h.length q == 0

pub queue_push_back : Links → ℕ → ℕ → Links
queue_push_back h q e =
    let last = h.prev q in
    record h {
      prev = update (update h.prev e last) q e;
      next = update (update h.next e q) last e;
      length = update h.length q ((h.length q + 1) % word);
    }

-- `length--` of an `int`, by its pattern.
pub queue_remove : Links → ℕ → ℕ → Links
queue_remove h q e =
    let before = h.prev e in
    let after = h.next e in
    if before == 0 || after == 0 then h else record h {
      prev = update (update h.prev after before) e 0;
      next = update (update h.next before after) e 0;
      length = update h.length q ((h.length q + word - 1) % word);
    }

-- The popped entry, or `none` for NULL.
pub queue_pop_front : Links → ℕ → Option ℕ × Links
queue_pop_front h q =
    let e = h.next q in if queue_is_empty h q then (none, h) else (some e, queue_remove h q e)
