-- ===== src/Process.antt =====
-- src/process.c: the ready queue and the scheduler.
pub mod Delay
pub mod Ready
pub mod Schedule
pub mod Expired
pub mod Waiting
mod Tests
use yalnix.Base.{
  ℕ, zero, suc, ◌+◌, Bool, true, false, not, ◌&&◌, ◌||◌, Option, none, some, List, ◌==◌, leb,
  if◌then◌else◌, update,
}
use yalnix.Hardware.{Hardware, prot_rw, stack_base_page, stack_pages}
use yalnix.Memory.{Memory, Pte, set_pte, write_register_flush, memory_install_page_tables}
use yalnix.State.{
  Kernel, Pcb, ProcState, Resume, modify, set_state, is_zombie, is_running, is_blocked,
}
use yalnix.Queue.Fifo.{has, push_back, pop_front}

unfoldable pub process_make_ready : ℕ → Kernel → Kernel
process_make_ready p k =
    if p == 0 || p == k.idle || is_zombie (k.procs p).state
    then k
    else (let k₁ = modify p (set_state ProcState.ready) k in
        if has p k₁.ready_queue then k₁ else record k₁ { ready_queue = push_back k₁.ready_queue p })

-- The head of the ready queue, or NULL.
abbrev pub or_null : Option ℕ → ℕ
or_null none = 0
or_null (some p) = p

unfoldable pub process_next_ready : Kernel → ℕ × Kernel
process_next_ready k =
    let (p, rest) = pop_front k.ready_queue in (or_null p, record k { ready_queue = rest })

-- The body of ProcessWakeDelayed's loop.
abbrev pub is_due : ℕ → Kernel → Bool
is_due p k =
    let b = k.procs p in
    not (p == 0)
    && (is_blocked b.state && (not (b.delay_until == 0) && leb b.delay_until k.clock_ticks))

unfoldable pub wake_at : ℕ → Kernel → Kernel
wake_at i k =
    let p = k.process_table i in
    if is_due p k then process_make_ready p (modify p (λ b. record b { delay_until = 0 }) k) else k

unfoldable pub wake_from : (left i : ℕ) → Kernel → Kernel
wake_from zero i k = k
wake_from (suc left) i k = wake_from left (i + 1) (wake_at i k)

-- The process that gives up the processor goes back to the ready queue if it still runs.
unfoldable pub requeue_current : Kernel → Kernel
requeue_current k =
    if not (k.current == 0) && (not (k.current == k.idle) && is_running (k.procs k.current).state)
    then process_make_ready k.current k
    else k

module _ ⦃hw : Hardware⦄ where
  unfoldable pub process_wake_delayed : Kernel → Kernel
  process_wake_delayed k = wake_from hw.max_procs 0 k

  -- `region0[stack_page + i]` maps the kernel stack of the process that is switched to.
  unfoldable pub map_kernel_stack : (left i : ℕ) → (ℕ → ℕ) → Memory → Memory
  map_kernel_stack zero i pfns m = m
  map_kernel_stack (suc left) i pfns m = map_kernel_stack left (i + 1) pfns (record m {
    tables =
        set_pte m.tables m.kernel_pt (stack_base_page + i)
          (record { valid = true; prot = prot_rw; pfn = pfns i });
  })

  -- KCSwitch: `resume` is the kernel context that the old process leaves behind.
  unfoldable pub kc_switch : (old next : ℕ) → Resume → Kernel → Kernel
  kc_switch old next resume k =
      let k₁ = if old == 0 then k else modify old (λ b. record b { kernel_context = resume }) k in
      record k₁ {
        current = next;
        memory = write_register_flush hw.tlb_flush_all (
            memory_install_page_tables (k₁.procs next).region1_pt
              (map_kernel_stack stack_pages 0 (k₁.procs next).kernel_stack_pfns k₁.memory));
      }

  unfoldable pub process_switch : ℕ → Resume → Kernel → Kernel
  process_switch next resume k =
      if next == 0 || next == k.current
      then k
      else kc_switch k.current next resume (modify next (set_state ProcState.running) k)

  -- `resume` is where the caller goes on; where nothing is switched, the caller goes on at once.
  unfoldable pub process_schedule : Resume → Kernel → Kernel
  process_schedule resume k =
      let (popped, k₁) = process_next_ready (requeue_current (process_wake_delayed k)) in
      let next = if popped == 0 then k₁.idle else popped in
      if next == k₁.current then k₁ else process_switch next resume k₁
