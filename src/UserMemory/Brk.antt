-- ===== src/UserMemory/Brk.antt =====
-- What SysBrk does to the memory of the process that calls it.
use yalnix.Base.{ℕ, ◌-◌, ◌≤◌, ◌<◌, ◌≡◌, ◌≢◌, ◌⊎◌, Bool, true, false, ◌||◌, leb}
use yalnix.Hardware.{Hardware, prot_rw}
use yalnix.Memory.{Memory}
use yalnix.Memory.Short.{Short}
use yalnix.Memory.Isolation.{IsIsolated}
use yalnix.Memory.Release.{Released}
use yalnix.Memory.Grow.Ledger.{Grown}
use yalnix.Memory.Grow.Rollback as Grow
use yalnix.State.{Kernel, error, success}
use yalnix.Ipc.{Outcome, returned}
use yalnix.UserMemory.{page_above, brk_refused}

-- The heap's end moved from page `old` to page `new`: the pages between were mapped at frames that
-- were free, or their frames were given back.
abbrev pub Resized : ⦃hw : Hardware⦄ (pt old new : ℕ) → Memory → Memory → Type 0
Resized pt old new m n =
    ((old ≤ new) × Grown pt old new prot_rw m n) ⊎ ((new < old) × Released pt new old m n)

abbrev Resize : ⦃hw : Hardware⦄ (pt old new : ℕ) → Memory → Bool × Memory → Type 0
Resize pt old new m (true, n) = Resized pt old new m n × IsIsolated n
Resize pt old new m (false, n) = Grown pt old old prot_rw m n × IsIsolated n × Short (new - old) m

-- The heap of the current process: its pages end below its stack, and the pages between are free.
pub record IsUserHeap ⦃hw : Hardware⦄ (k : Kernel) : Type 0 where
  pub isolated : IsIsolated k.memory
  pub table : (k.procs k.current).region1_pt ≢ 0
  pub low : page_above (k.procs k.current).user_brk ≤ (k.procs k.current).user_stack_low_page
  pub fits : (k.procs k.current).user_stack_low_page ≤ hw.max_pt_len
  pub room :
      (j : ℕ)
      → page_above (k.procs k.current).user_brk ≤ j
      → j < (k.procs k.current).user_stack_low_page
      → (k.memory.tables (k.procs k.current).region1_pt j).valid ≡ false

-- What a call of SysBrk gives: a refusal that changes nothing; where fewer frames are free than pages
-- are missing, an error that leaves the frames and mappings as they were; or the heap's end at `addr`, rounded up to a page.
pub BrkMoved : ⦃hw : Hardware⦄ (addr : ℕ) → Kernel → Outcome × Kernel → Type 0
BrkMoved ⦃hw = hw⦄ addr k (o, k') =
    let b = k.procs k.current in
    let old = page_above b.user_brk in
    ((brk_refused addr k || leb b.user_stack_low_page (page_above addr) ≡ true)
      × (o ≡ returned error)
      × (k' ≡ k))
    ⊎ ((o ≡ returned error)
        × (k'.procs ≡ k.procs)
        × Grown b.region1_pt old old prot_rw k.memory k'.memory
        × IsIsolated k'.memory
        × Short (page_above addr - old) k.memory)
    ⊎ ((o ≡ returned success)
        × ((k'.procs k.current).user_brk ≡ hw.up_to_page addr)
        × Resized b.region1_pt old (page_above addr) k.memory k'.memory
        × IsIsolated k'.memory)
