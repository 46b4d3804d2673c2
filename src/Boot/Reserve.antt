-- ===== src/Boot/Reserve.antt =====
-- MemoryInit of src/memory.c: which frames are in use once the machine has started.
use yalnix.Base.{
  ℕ, ◌/◌, ◌≤◌, ◌<◌, ◌≡◌, refl, ap, ◌∙◌, ◌≢◌, ◌⊎◌, inl, inr, true, false, some, List, [], ◌∷◌, ◌==◌,
  ltb, arith, Bool-cases, update,
}
use yalnix.Hardware.{Hardware, page_size, stack_base_page, stack_limit_page}
use yalnix.Memory.{Memory, zero_pte, memory_alloc_page_table}
use yalnix.KernelBrk.{kernel_brk_page, requested_page, set_kernel_brk}
use yalnix.Boot.{reserve, clear_frames, brk_calls, reserve_kernel, memory_init}

module _ ⦃hw : Hardware⦄ where
  -- Each request is for no less than the one before it.
  unfoldable pub Climbs : (brk : ℕ) → List ℕ → Type 0
  Climbs brk [] = Unit
  Climbs brk (a ∷ rest) = (brk ≤ requested_page a) × Climbs (requested_page a) rest

  -- Before the MMU is on, from `m` to `n` the break has moved up, and nothing else has changed but
  -- what was written to the flush register.
  pub record Climbed (m n : Memory) : Type 0 where
    pub brk : m.kernel_brk_page ≤ n.kernel_brk_page
    pub same : n.highest_pre_vm_brk_page ≡ n.kernel_brk_page
    pub below : n.kernel_brk_page ≤ stack_base_page
    pub started : n.kernel_brk_page ≢ 0
    pub off : n.vm_enabled ≡ false
    pub tables : n.tables ≡ m.tables
    pub allocated : n.allocated ≡ m.allocated
    pub count : n.frame_count ≡ m.frame_count

  -- A call of SetKernelBrk.
  call-Climbed :
      (a : ℕ) (m : Memory)
      → m.vm_enabled ≡ false
      → m.kernel_brk_page ≢ 0
      → m.highest_pre_vm_brk_page ≡ m.kernel_brk_page
      → m.kernel_brk_page ≤ stack_base_page
      → m.kernel_brk_page ≤ requested_page a
      → Climbed m (set_kernel_brk a m).1
        × ((set_kernel_brk a m).1.kernel_brk_page ≤ requested_page a)
  unfolding set_kernel_brk kernel_brk_page
  call-Climbed a m off live same low le =
      let z : (m.kernel_brk_page == 0) ≡ false = ground (arith, live) in
      rw (z, off)
        (elim (Bool-cases (ltb stack_base_page (requested_page a))) [
          | inl high ↦ rw high (
            record {
              brk = ground arith;
              same = ground arith;
              below = ground arith;
              started = ground arith;
              off = ground arith;
              tables = refl;
              allocated = refl;
              count = refl;
            },
            ground arith,
          )
          | inr fits ↦ rw fits (
            record {
              brk = ground arith;
              same = ground arith;
              below = ground arith;
              started = ground arith;
              off = ground arith;
              tables = refl;
              allocated = refl;
              count = refl;
            },
            ground arith,
          )
        ])

  Climbed-trans : {m n o : Memory} → Climbed m n → Climbed n o → Climbed m o
  Climbed-trans a b = record {
    brk = omega (arith, a.brk, b.brk);
    same = b.same;
    below = b.below;
    started = b.started;
    off = b.off;
    tables = b.tables ∙ a.tables;
    allocated = b.allocated ∙ a.allocated;
    count = b.count ∙ a.count;
  }

  pub brk_calls-Climbed :
      (requests : List ℕ) (m : Memory) (top : ℕ)
      → Climbs top requests
      → m.kernel_brk_page ≤ top
      → Climbed m m
      → Climbed m (brk_calls requests m)
  unfolding brk_calls Climbs
  brk_calls-Climbed [] m top up le c = c
  brk_calls-Climbed (a ∷ rest) m top up le c =
      let (d, e) = call-Climbed a m c.off c.started c.same c.below (omega (arith, le, up.0)) in
      let n = (set_kernel_brk a m).1 in
      Climbed-trans d (
        brk_calls-Climbed rest n (requested_page a) up.1 e (record {
          brk = omega arith;
          same = d.same;
          below = d.below;
          started = d.started;
          off = d.off;
          tables = refl;
          allocated = refl;
          count = refl;
        }))

  abbrev pub started_at_orig : Memory → Memory
  started_at_orig m = record m {
    kernel_brk_page = hw.orig_kernel_brk_page;
    highest_pre_vm_brk_page = hw.orig_kernel_brk_page;
  }

  -- KernelBrkPage the first time,
  brk_page-first :
      (m : Memory)
      → m.kernel_brk_page ≡ 0
      → kernel_brk_page m ≡ (hw.orig_kernel_brk_page, started_at_orig m)
  unfolding kernel_brk_page
  brk_page-first m e =
      let z : (m.kernel_brk_page == 0) ≡ true = ground (arith, e) in
      let same : ltb hw.orig_kernel_brk_page hw.orig_kernel_brk_page ≡ false = ground arith in
      rw z (elim (Bool-cases m.vm_enabled) [ inl t ↦ rw t refl | inr f ↦ rw f (rw same refl) ])

  -- and later.
  pub brk_page-steady :
      (m : Memory)
      → m.kernel_brk_page ≢ 0
      → m.highest_pre_vm_brk_page ≡ m.kernel_brk_page
      → kernel_brk_page m ≡ (m.kernel_brk_page, m)
  unfolding kernel_brk_page
  brk_page-steady m live e =
      let z : (m.kernel_brk_page == 0) ≡ false = ground (arith, live) in
      let same : ltb m.kernel_brk_page m.highest_pre_vm_brk_page ≡ false = ground (arith, e) in
      rw z (elim (Bool-cases m.vm_enabled) [ inl t ↦ rw t refl | inr f ↦ rw f (rw same refl) ])

  -- From `m` to `n` the kernel's page table `pt` was made, and exactly the frames below the break and
  -- those of the kernel stack are in use.
  pub record Reserved (count pt : ℕ) (m n : Memory) : Type 0 where
    pub heap : (p : ℕ) → p < n.kernel_brk_page → p < count → n.allocated p ≡ true
    pub stack :
        (p : ℕ) → stack_base_page ≤ p → p < stack_limit_page → p < count → n.allocated p ≡ true
    pub spare :
        (p : ℕ)
        → n.kernel_brk_page ≤ p
        → (p < stack_base_page) ⊎ (stack_limit_page ≤ p)
        → p < count
        → n.allocated p ≡ false
    pub blank : (j : ℕ) → n.tables pt j ≡ zero_pte
    pub others : (t j : ℕ) → t ≢ pt → n.tables t j ≡ m.tables t j
    pub table : n.kernel_pt ≡ pt
    pub frames : n.frame_count ≡ count
    pub off : n.vm_enabled ≡ false
    pub started : n.kernel_brk_page ≢ 0
    pub same : n.highest_pre_vm_brk_page ≡ n.kernel_brk_page
    pub below : n.kernel_brk_page ≤ stack_base_page
    pub above : hw.orig_kernel_brk_page ≤ n.kernel_brk_page

  reserve_kernel-first :
      (count : ℕ) (m : Memory)
      → m.kernel_brk_page ≡ 0
      → reserve_kernel count m
        ≡ reserve stack_base_page stack_limit_page
            (reserve 0 hw.orig_kernel_brk_page (started_at_orig (clear_frames count m)))
  unfolding reserve_kernel
  reserve_kernel-first count m e =
      ap (λ r. reserve stack_base_page stack_limit_page (reserve 0 r.0 r.1))
        (brk_page-first (clear_frames count m) e)

  module _ (count pt : ℕ) (requests : List ℕ) (m : Memory)
      (fits : count ≤ hw.max_pmem_size / page_size) (live : pt ≢ 0) (fresh : m.kernel_brk_page ≡ 0)
      (off : m.vm_enabled ≡ false) (orig : hw.orig_kernel_brk_page ≢ 0)
      (low : hw.orig_kernel_brk_page ≤ stack_base_page)
      (up : Climbs hw.orig_kernel_brk_page requests) where
    abbrev first : Memory
    first =
        reserve stack_base_page stack_limit_page
          (reserve 0 hw.orig_kernel_brk_page (started_at_orig (clear_frames count m)))

    grown-Climbed : Climbed first (brk_calls requests first)
    grown-Climbed =
        brk_calls-Climbed requests first hw.orig_kernel_brk_page up (omega arith) (record {
          brk = omega arith;
          same = refl;
          below = low;
          started = orig;
          off = off;
          tables = refl;
          allocated = refl;
          count = refl;
        })

    abbrev tabled : Memory
    tabled = record (brk_calls requests first) {
      tables = update (brk_calls requests first).tables pt (λ _. zero_pte);
      kernel_pt = pt;
    }

    final-Reserved : Reserved count pt m (reserve 0 tabled.kernel_brk_page tabled)
    final-Reserved =
        let c = grown-Climbed in
        record {
          heap = λ p a b. ground (arith, c.count);
          stack = λ p a b d. ground (arith, ap (λ f. f p) c.allocated);
          spare = λ p a b d. ground (arith, ap (λ f. f p) c.allocated, c.brk);
          blank = λ j. ground arith;
          others = λ t j e. ground (arith, ap (λ f. f t j) c.tables);
          table = refl;
          frames = c.count;
          off = c.off;
          started = c.started;
          same = c.same;
          below = c.below;
          above = c.brk;
        }

  -- MemoryInit succeeds, and the memory that it leaves is the kernel's to map.
  pub memory_init-some :
      (pmem_size pt : ℕ) (requests : List ℕ) (m : Memory)
      → pmem_size / page_size ≤ hw.max_pmem_size / page_size
      → pt ≢ 0
      → m.kernel_brk_page ≡ 0
      → m.vm_enabled ≡ false
      → hw.orig_kernel_brk_page ≢ 0
      → hw.orig_kernel_brk_page ≤ stack_base_page
      → Climbs hw.orig_kernel_brk_page requests
      → (n : Memory) × (memory_init pmem_size pt requests m ≡ some n)
        × Reserved (pmem_size / page_size) pt m n
  unfolding memory_init memory_alloc_page_table
  memory_init-some pmem_size pt requests m fits live fresh off orig low up =
      let count = pmem_size / page_size in
      let a : ltb (hw.max_pmem_size / page_size) count ≡ false = ground arith in
      let b : (pt == 0) ≡ false = ground (arith, live) in
      let r = final-Reserved count pt requests m fits live fresh off orig low up in
      let t = tabled count pt requests m fits live fresh off orig low up in
      (
        reserve 0 t.kernel_brk_page t,
        rw (a, b, reserve_kernel-first count m fresh)
            (ap (λ x. some (reserve 0 x.0 x.1)) (brk_page-steady t r.started r.same)),
        r,
      )
