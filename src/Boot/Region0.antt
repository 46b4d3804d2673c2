-- ===== src/Boot/Region0.antt =====
-- MemoryBuildKernelRegion0 of src/memory.c: the kernel's own pages stand at the frames of the same
-- number.
use yalnix.Base.{
  ℕ, ◌-◌, ◌/◌, ◌≤◌, ◌<◌, ◌≡◌, refl, sym, ap, subst, ◌∙◌, ◌≢◌, ◌⊎◌, inl, inr, true, false, some,
  ◌==◌, arith, List, ◌>>=◌,
}
use yalnix.Hardware.{Hardware, page_size, prot_rw, prot_rx, stack_base_page, stack_limit_page}
use yalnix.Memory.{Memory, zero_pte}
use yalnix.Memory.Isolation.{IsIsolated}
use yalnix.Boot.{memory_init, map_identity, map_kernel, memory_build_kernel_region0}
use yalnix.Boot.Identity.{Identity, map_identity-Identity}
use yalnix.Boot.Reserve.{Reserved, Climbs, memory_init-some, brk_page-steady}
use yalnix.KernelBrk.Outcome.{IsHeap}

module _ ⦃hw : Hardware⦄ where
  -- The kernel's region 0: its text can be read and executed, its data, its heap up to the break and its
  -- stack read and written; each of these pages stands at the frame of its number, which is in use,
  -- no other page of any table is mapped, and no two entries share a frame.
  pub record KernelMapped (o : Memory) : Type 0 where
    pub text :
        (j : ℕ)
        → hw.first_kernel_text_page ≤ j
        → j < hw.first_kernel_data_page
        → o.tables o.kernel_pt j ≡ record { valid = true; prot = prot_rx; pfn = j }
    pub heap :
        (j : ℕ)
        → hw.first_kernel_data_page ≤ j
        → j < o.kernel_brk_page
        → o.tables o.kernel_pt j ≡ record { valid = true; prot = prot_rw; pfn = j }
    pub stack :
        (j : ℕ)
        → stack_base_page ≤ j
        → j < stack_limit_page
        → o.tables o.kernel_pt j ≡ record { valid = true; prot = prot_rw; pfn = j }
    pub gap :
        (j : ℕ)
        → (j < hw.first_kernel_text_page) ⊎ (o.kernel_brk_page ≤ j)
        → (j < stack_base_page) ⊎ (stack_limit_page ≤ j)
        → (o.tables o.kernel_pt j).valid ≡ false
    pub others : (t j : ℕ) → t ≢ o.kernel_pt → (o.tables t j).valid ≡ false
    pub isolated : IsIsolated o

  -- The kernel's image, heap and stack follow each other, and there are frames and page table entries for
  -- all of them.
  pub record Laid (count : ℕ) : Type 0 where
    pub text : hw.first_kernel_text_page ≤ hw.first_kernel_data_page
    pub image : hw.first_kernel_data_page ≤ hw.orig_kernel_brk_page
    pub stack : stack_base_page ≤ stack_limit_page
    pub table : stack_limit_page ≤ hw.max_pt_len
    pub frames : stack_limit_page ≤ count

  module _ (count pt : ℕ) (m n : Memory) (laid : Laid count) (live : pt ≢ 0)
      (empty : (t j : ℕ) → (m.tables t j).valid ≡ false) (r : Reserved count pt m n) where
    abbrev with_text : Memory
    with_text =
        map_identity (hw.first_kernel_data_page - hw.first_kernel_text_page)
          hw.first_kernel_text_page prot_rx n

    abbrev with_heap : Memory
    with_heap =
        map_identity (n.kernel_brk_page - hw.first_kernel_data_page) hw.first_kernel_data_page
          prot_rw with_text

    abbrev with_stack : Memory
    with_stack = map_identity (stack_limit_page - stack_base_page) stack_base_page prot_rw with_heap

    n_live : n.kernel_pt ≢ 0
    n_live e = live (sym r.table ∙ e)

    one : Identity hw.first_kernel_text_page hw.first_kernel_data_page prot_rx n with_text
    one =
        map_identity-Identity _ hw.first_kernel_text_page hw.first_kernel_data_page prot_rx n n_live
          (omega (arith, laid.text))
          (omega (arith, laid.image, laid.stack, laid.table, r.above, r.below))

    two : Identity hw.first_kernel_data_page n.kernel_brk_page prot_rw with_text with_heap
    two =
        map_identity-Identity _ hw.first_kernel_data_page n.kernel_brk_page prot_rw with_text
          (λ e. n_live (sym one.kernel ∙ e)) (omega (arith, laid.image, r.above))
          (omega (arith, laid.stack, laid.table, r.below))

    three : Identity stack_base_page stack_limit_page prot_rw with_heap with_stack
    three =
        map_identity-Identity _ stack_base_page stack_limit_page prot_rw with_heap
          (λ e. n_live (sym one.kernel ∙ sym two.kernel ∙ e)) (omega (arith, laid.stack)) laid.table

    map_kernel-stack : map_kernel n ≡ with_stack
    unfolding map_kernel
    map_kernel-stack =
        ap
          (λ b.
            map_identity (stack_limit_page - stack_base_page) stack_base_page prot_rw (
              map_identity (b.0 - hw.first_kernel_data_page) hw.first_kernel_data_page prot_rw b.1))
          (brk_page-steady with_text (λ e. r.started (sym one.brk ∙ e))
              (one.highest ∙ r.same ∙ sym one.brk)
            ∙ ap (λ b. (b, with_text)) one.brk)

    k₂ : with_text.kernel_pt ≡ n.kernel_pt
    k₂ = one.kernel

    k₃ : with_heap.kernel_pt ≡ n.kernel_pt
    k₃ = two.kernel ∙ k₂

    k₄ : with_stack.kernel_pt ≡ n.kernel_pt
    k₄ = three.kernel ∙ k₃

    brk₄ : with_stack.kernel_brk_page ≡ n.kernel_brk_page
    brk₄ = three.brk ∙ two.brk ∙ one.brk

    -- The last loop leaves the pages outside the stack alone, and so on.
    off_stack :
        (j : ℕ)
        → (j < stack_base_page) ⊎ (stack_limit_page ≤ j)
        → with_stack.tables n.kernel_pt j ≡ with_heap.tables n.kernel_pt j
    off_stack j c = subst (λ x. with_stack.tables x j ≡ with_heap.tables x j) k₃ (three.outside j c)

    off_heap :
        (j : ℕ)
        → (j < hw.first_kernel_data_page) ⊎ (n.kernel_brk_page ≤ j)
        → with_heap.tables n.kernel_pt j ≡ with_text.tables n.kernel_pt j
    off_heap j c = subst (λ x. with_heap.tables x j ≡ with_text.tables x j) k₂ (two.outside j c)

    text_page :
        (j : ℕ)
        → hw.first_kernel_text_page ≤ j
        → j < hw.first_kernel_data_page
        → with_stack.tables n.kernel_pt j ≡ record { valid = true; prot = prot_rx; pfn = j }
    text_page j a b =
        off_stack j (inl (omega (arith, laid.image, r.above, r.below)))
        ∙ off_heap j (inl b)
        ∙ one.inside j a b

    heap_page :
        (j : ℕ)
        → hw.first_kernel_data_page ≤ j
        → j < n.kernel_brk_page
        → with_stack.tables n.kernel_pt j ≡ record { valid = true; prot = prot_rw; pfn = j }
    heap_page j a b =
        off_stack j (inl (omega (arith, r.below)))
        ∙ subst (λ x. with_heap.tables x j ≡ record { valid = true; prot = prot_rw; pfn = j }) k₂
            (two.inside j a b)

    stack_page :
        (j : ℕ)
        → stack_base_page ≤ j
        → j < stack_limit_page
        → with_stack.tables n.kernel_pt j ≡ record { valid = true; prot = prot_rw; pfn = j }
    stack_page j a b =
        subst (λ x. with_stack.tables x j ≡ record { valid = true; prot = prot_rw; pfn = j }) k₃
          (three.inside j a b)

    gap_page :
        (j : ℕ)
        → (j < hw.first_kernel_text_page) ⊎ (n.kernel_brk_page ≤ j)
        → (j < stack_base_page) ⊎ (stack_limit_page ≤ j)
        → (with_stack.tables n.kernel_pt j).valid ≡ false
    gap_page j a b =
        let off : (j < hw.first_kernel_text_page) ⊎ (hw.first_kernel_data_page ≤ j) =
          omega (arith, laid.image, r.above) in
        let off' : (j < hw.first_kernel_data_page) ⊎ (n.kernel_brk_page ≤ j) =
          omega (arith, laid.text) in
        ap (λ e. e.valid)
          (off_stack j b
            ∙ off_heap j off'
            ∙ one.outside j off
            ∙ subst (λ x. n.tables x j ≡ zero_pte) (sym r.table) (r.blank j))

    other_page : (t j : ℕ) → t ≢ n.kernel_pt → (with_stack.tables t j).valid ≡ false
    other_page t j off =
        ap (λ e. e.valid)
          (three.others t j (λ e. off (e ∙ k₃))
            ∙ two.others t j (λ e. off (e ∙ k₂))
            ∙ one.others t j off
            ∙ r.others t j (λ e. off (e ∙ sym r.table)))
        ∙ empty t j

    used : with_stack.allocated ≡ n.allocated
    used = three.allocated ∙ two.allocated ∙ one.allocated

    -- Where a valid entry stands, and the frame that it holds.
    abbrev AtHome : (t j : ℕ) → Type 0
    AtHome t j =
        (t ≡ n.kernel_pt) × ((with_stack.tables t j).pfn ≡ j) × (j < count) × (n.allocated j ≡ true)

    kernel_home : (j : ℕ) → (with_stack.tables n.kernel_pt j).valid ≡ true → AtHome n.kernel_pt j
    kernel_home j w = elim (where_is j) [
      | inl t ↦ (
        refl,
        ap (λ e. e.pfn) (text_page j t.0 t.1),
        omega (arith, laid.image, laid.stack, laid.frames, r.above, r.below),
        r.heap j (omega (arith, laid.image, r.above))
            (omega (arith, laid.image, laid.stack, laid.frames, r.above, r.below)),
      )
      | inr (inl h) ↦ (
        refl,
        ap (λ e. e.pfn) (heap_page j h.0 h.1),
        omega (arith, laid.stack, laid.frames, r.below),
        r.heap j h.1 (omega (arith, laid.stack, laid.frames, r.below)),
      )
      | inr (inr (inl s)) ↦ (
        refl,
        ap (λ e. e.pfn) (stack_page j s.0 s.1),
        omega (arith, laid.frames),
        r.stack j s.0 s.1 (omega (arith, laid.frames)),
      )
      | inr (inr (inr (a, b))) ↦ absurd (ground (arith, gap_page j a b, w))
    ]
      where
        where_is :
            (j : ℕ)
            → ((hw.first_kernel_text_page ≤ j) × (j < hw.first_kernel_data_page))
              ⊎ ((hw.first_kernel_data_page ≤ j) × (j < n.kernel_brk_page))
              ⊎ ((stack_base_page ≤ j) × (j < stack_limit_page))
              ⊎ (((j < hw.first_kernel_text_page) ⊎ (n.kernel_brk_page ≤ j))
                  × ((j < stack_base_page) ⊎ (stack_limit_page ≤ j)))
        where_is j = ground arith

    home : (t j : ℕ) → (with_stack.tables t j).valid ≡ true → AtHome t j
    home t j w = elim (side t) [
      | inl e ↦ rw e (kernel_home j (rw e at w))
      | inr off ↦ absurd (ground (arith, other_page t j off, w))
    ]
      where
        side : (t : ℕ) → (t ≡ n.kernel_pt) ⊎ (t ≢ n.kernel_pt)
        side t = omega arith

    with_stack-IsIsolated : IsIsolated with_stack
    with_stack-IsIsolated = record {
      held = λ t j w.
          let h = home t j w in
          rw (h.1, used, three.count ∙ two.count ∙ one.count ∙ r.frames) (h.2, h.3);
      apart = λ t j u l w x e.
          let a = home t j w in let b = home u l x in (a.0 ∙ sym b.0, sym a.1 ∙ e ∙ b.1);
    }

    with_stack-KernelMapped : KernelMapped with_stack
    with_stack-KernelMapped = record {
      text = λ j a b. rw k₄ (text_page j a b);
      heap = λ j a b. rw k₄ (heap_page j a (rw brk₄ at b));
      stack = λ j a b. rw k₄ (stack_page j a b);
      gap = λ j a b. rw k₄ (gap_page j (rw brk₄ at a) b);
      others = λ t j off. other_page t j (λ e. off (e ∙ sym k₄));
      isolated = with_stack-IsIsolated;
    }

    -- With the MMU on, the kernel's heap is as SetKernelBrk wants it.
    with_stack-IsHeap : IsHeap (record with_stack { vm_enabled = true })
    with_stack-IsHeap = record {
      isolated = record { held = with_stack-IsIsolated.held; apart = with_stack-IsIsolated.apart };
      table = λ e. n_live (sym k₄ ∙ e);
      started = λ e. r.started (sym brk₄ ∙ e);
      on = refl;
      low = rw brk₄ r.below;
      room = λ j a b. rw k₄ (gap_page j (inr (rw brk₄ at a)) (inl b));
    }

    pub build-KernelMapped :
        (memory_build_kernel_region0 n ≡ some with_stack)
        × KernelMapped with_stack
        × IsHeap (record with_stack { vm_enabled = true })
    unfolding memory_build_kernel_region0
    build-KernelMapped =
        let a : (n.kernel_pt == 0) ≡ false = ground (arith, n_live) in
        (rw a (ap some map_kernel-stack), with_stack-KernelMapped, with_stack-IsHeap)

  -- The memory with which KernelStart turns the MMU on.
  unfoldable pub Booted : (pmem_size pt : ℕ) (requests : List ℕ) → Memory → Type 0
  Booted pmem_size pt requests m =
      (o : Memory) × ((memory_init pmem_size pt requests m >>= memory_build_kernel_region0)
        ≡ some o)
      × KernelMapped o
      × IsHeap (record o { vm_enabled = true })

  -- A machine whose frames, page table and frame table have room for the kernel's image and stack, with empty
  -- page tables, and calloc that gives a page table and calls SetKernelBrk for no less each time:
  -- MemoryInit and MemoryBuildKernelRegion0 do not panic, and map the kernel's text, its data, its heap as far as it
  -- has grown by then and its stack, each page at the frame of its number, which is in use, and nothing else;
  -- no two entries share a frame, and once the MMU is on the heap is one that SetKernelBrk keeps well formed.
  pub memory_init-Booted :
      (pmem_size pt : ℕ) (requests : List ℕ) (m : Memory)
      → pmem_size / page_size ≤ hw.max_pmem_size / page_size
      → Laid (pmem_size / page_size)
      → pt ≢ 0
      → m.kernel_brk_page ≡ 0
      → m.vm_enabled ≡ false
      → hw.orig_kernel_brk_page ≢ 0
      → hw.orig_kernel_brk_page ≤ stack_base_page
      → Climbs hw.orig_kernel_brk_page requests
      → ((t j : ℕ) → (m.tables t j).valid ≡ false)
      → Booted pmem_size pt requests m
  unfolding Booted
  memory_init-Booted pmem_size pt requests m fits laid live fresh off orig low up empty =
      let (n, e, r) = memory_init-some pmem_size pt requests m fits live fresh off orig low up in
      let b = build-KernelMapped (pmem_size / page_size) pt m n laid live empty r in
      (with_stack (pmem_size / page_size) pt m n laid live empty r, rw e b.0, b.1, b.2)
