-- ===== src/KernelBrk/Outcome.antt =====
-- What SetKernelBrk does once the MMU is on.
use yalnix.Base.{
  ℕ, ◌+◌, ◌-◌, ◌≤◌, ◌<◌, ◌≡◌, refl, ◌≢◌, ◌⊎◌, inl, inr, Bool, true, false, arith, ◌==◌,
  if◌then◌else◌, ◌∙◌, ltb,
}
use yalnix.Hardware.{Hardware, prot_rw, stack_base_page}
use yalnix.Memory.{Memory, Pte, release_valid}
use yalnix.Memory.Short.{Short, Used-refl}
use yalnix.Memory.Isolation.{IsIsolated}
use yalnix.Memory.Release.{Released, release_valid-Released}
use yalnix.Memory.Grow.{grow}
use yalnix.Memory.Grow.Ledger.{SameEntry, Grown, Grown-refl}
use yalnix.Memory.Grow.Rollback.{Outcome, grow-Outcome}
use yalnix.KernelBrk.{kernel_brk_page, requested_page, settle, move_brk, set_kernel_brk}

-- The kernel's heap: no two entries share a frame, and no page from the break to the kernel stack
-- is mapped.
pub record IsHeap ⦃hw : Hardware⦄ (m : Memory) : Type 0 where
  pub isolated : IsIsolated m
  pub table : m.kernel_pt ≢ 0
  pub started : m.kernel_brk_page ≢ 0
  pub on : m.vm_enabled ≡ true
  pub low : m.kernel_brk_page ≤ stack_base_page
  pub room :
      (j : ℕ) → m.kernel_brk_page ≤ j → j < stack_base_page → (m.tables m.kernel_pt j).valid ≡ false

abbrev pub with_brk : ℕ → Memory → Memory
with_brk b m = record m { kernel_brk_page = b }

with_brk-IsIsolated : {m : Memory} (b : ℕ) → IsIsolated m → IsIsolated (with_brk b m)
with_brk-IsIsolated b v = record { held = v.held; apart = v.apart }

-- How the break moves from page `b` of `m` to page `r`, or stays.
abbrev pub Moved : ⦃hw : Hardware⦄ (r : ℕ) → Memory → Bool × Memory → Type 0
Moved r m (false, n) =
    Grown m.kernel_pt m.kernel_brk_page m.kernel_brk_page prot_rw m n
    × IsIsolated n
    × Short (r - m.kernel_brk_page) m
Moved r m (true, n) =
    (n.kernel_brk_page ≡ r)
    × ((m.kernel_brk_page ≤ r)
          × Grown m.kernel_pt m.kernel_brk_page r prot_rw m (with_brk m.kernel_brk_page n)
        ⊎ ((r < m.kernel_brk_page) × Released m.kernel_pt r m.kernel_brk_page m n))
    × IsIsolated n

Grown-with_brk :
    {pt lo hi prot : ℕ} {m n : Memory} (r : ℕ)
    → Grown pt lo hi prot m n
    → Grown pt lo hi prot m (with_brk m.kernel_brk_page (with_brk r n))
Grown-with_brk r g = record {
  was = g.was;
  mapped = g.mapped;
  fresh = g.fresh;
  kept = g.kept;
  below = g.below;
  above = g.above;
  others = g.others;
  count = g.count;
  kernel = g.kernel;
  mmu = g.mmu;
  brk = refl;
  highest = g.highest;
}

with_brk-Released :
    {pt lo hi : ℕ} {m n : Memory} (r : ℕ)
    → Released pt lo hi m n
    → Released pt lo hi m (with_brk r n)
with_brk-Released v r = record {
  cleared = r.cleared;
  below = r.below;
  above = r.above;
  others = r.others;
  freed = r.freed;
  spared = r.spared;
  down = r.down;
  count = r.count;
  kernel = r.kernel;
  mmu = r.mmu;
}

module _ ⦃hw : Hardware⦄ (m : Memory) (h : IsHeap m) (top : stack_base_page ≤ hw.max_pt_len) where
  abbrev b : ℕ
  b = m.kernel_brk_page

  settled :
      (r : ℕ) (g : Bool × Memory)
      → b ≤ r
      → Outcome m.kernel_pt b r m g
      → Moved r m (settle b r m.kernel_pt g)
  unfolding release_valid
  settled r (false, n) le o = o
  settled r (true, n) le (g, v) =
      let none_left : b - r ≡ 0 = omega arith in
      rw none_left (refl, inl (le, Grown-with_brk r g), with_brk-IsIsolated r v)

  move_brk-Moved : (r : ℕ) → r ≤ stack_base_page → Moved r m (move_brk m.kernel_brk_page r m)
  unfolding move_brk grow
  move_brk-Moved r le = elim (side r) [
    | inl up ↦ settled r (grow m.kernel_pt b (r - b) 0 m) up (
        grow-Outcome m.kernel_pt b m h.table (r - b) 0 r m (omega arith) (omega arith)
          (λ j c d. h.room j c (omega arith)) h.isolated (start b) (Used-refl m))
    | inr down ↦
        let none_new : r - b ≡ 0 = omega arith in
        let (rel, v) =
          release_valid-Released m.kernel_pt h.table (b - r) r b m (omega arith) (omega arith)
            h.isolated in
        rw (none_new, grow) (refl, inr (down, with_brk-Released r rel), with_brk-IsIsolated r v)
  ]
    where
      side : (r : ℕ) → (b ≤ r) ⊎ (r < b)
      side r = omega arith

      start : (c : ℕ) → Grown m.kernel_pt c (c + 0) prot_rw m m
      start c = let e : c + 0 ≡ c = omega arith in rw e (Grown-refl m.kernel_pt c prot_rw m)

  started : kernel_brk_page m ≡ (m.kernel_brk_page, m)
  unfolding kernel_brk_page
  started =
      let some_brk : (m.kernel_brk_page == 0) ≡ false = ground (arith, h.started) in
      rw (some_brk, h.on)

  set_kernel_brk-eq :
      (addr : ℕ)
      → set_kernel_brk addr m ≡ (
          if ltb stack_base_page (requested_page addr)
          then (false, m)
          else move_brk m.kernel_brk_page (requested_page addr) m)
  unfolding set_kernel_brk
  set_kernel_brk-eq addr = rw (started, h.on)

  -- With the MMU on, SetKernelBrk refuses a break above the base of the kernel stack and changes
  -- nothing; otherwise it either moves the break to the page asked for (the linker's at least),
  -- mapping exactly the pages up to it at free frames or giving back exactly those above it, or, where
  -- fewer frames are free than the pages that are missing, leaves the memory as it was. It keeps frames unshared in each case.
  pub set_kernel_brk-Moved :
      (addr : ℕ)
      → (stack_base_page < requested_page addr → set_kernel_brk addr m ≡ (false, m))
        × (requested_page addr ≤ stack_base_page
            → Moved (requested_page addr) m (set_kernel_brk addr m))
  set_kernel_brk-Moved addr = (
    λ over.
        let t : ltb stack_base_page (requested_page addr) ≡ true = ground arith in
        rw (set_kernel_brk-eq addr, t),
    λ under.
        let t : ltb stack_base_page (requested_page addr) ≡ false = ground arith in
        rw (set_kernel_brk-eq addr, t) (move_brk-Moved (requested_page addr) under),
  )

  -- An entry that was not valid and is the same is not valid.
  stays : (e e' : Pte) → e.valid ≡ false → SameEntry e e' → e'.valid ≡ false
  stays e e' v (inl same) = rw same v
  stays e e' v (inr (now, before)) = now

  Moved-IsHeap :
      (r : ℕ) (o : Bool × Memory) → r ≢ 0 → r ≤ stack_base_page → Moved r m o → IsHeap o.1
  Moved-IsHeap r (false, n) nz le (g, v, _) = record {
    isolated = v;
    table = rw g.kernel h.table;
    started = rw g.brk h.started;
    on = g.mmu ∙ h.on;
    low = rw g.brk h.low;
    room =
        λ j c d. rw g.kernel (stays _ _ (h.room j (rw g.brk at c) d) (g.above j (rw g.brk at c)));
  }
  Moved-IsHeap r (true, n) nz le (at, inl (up, g), v) = record {
    isolated = v;
    table = rw g.kernel h.table;
    started = rw at nz;
    on = g.mmu ∙ h.on;
    low = rw at le;
    room = λ j c d. rw g.kernel (opened j (rw at at c) d);
  }
    where
      opened : (j : ℕ) → r ≤ j → j < stack_base_page → (n.tables m.kernel_pt j).valid ≡ false
      opened j c d = stays _ _ (h.room j (omega arith) d) (g.above j c)
  Moved-IsHeap r (true, n) nz le (at, inr (down, rel), v) = record {
    isolated = v;
    table = rw rel.kernel h.table;
    started = rw at nz;
    on = rel.mmu ∙ h.on;
    low = rw at le;
    room = λ j c d. rw rel.kernel (opened j (rw at at c) d);
  }
    where
      side : (j : ℕ) → (b ≤ j) ⊎ (j < b)
      side j = omega arith

      opened : (j : ℕ) → r ≤ j → j < stack_base_page → (n.tables m.kernel_pt j).valid ≡ false
      opened j c d = elim (side j) [
        | inl past ↦ rw (rel.above j past) (h.room j past d)
        | inr under ↦ rel.cleared j c under
      ]

  -- SetKernelBrk keeps the kernel's heap well formed, on success and on failure.
  pub set_kernel_brk-IsHeap :
      (addr : ℕ) → hw.orig_kernel_brk_page ≢ 0 → IsHeap (set_kernel_brk addr m).1
  set_kernel_brk-IsHeap addr nz = elim (side addr) [
    | inl over ↦ rw ((set_kernel_brk-Moved addr).0 over) h
    | inr under ↦
        Moved-IsHeap (requested_page addr) (set_kernel_brk addr m) (ground arith) under
          ((set_kernel_brk-Moved addr).1 under)
  ]
    where
      side :
          (addr : ℕ)
          → (stack_base_page < requested_page addr) ⊎ (requested_page addr ≤ stack_base_page)
      side addr = omega arith
