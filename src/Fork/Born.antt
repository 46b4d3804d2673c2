-- ===== src/Fork/Born.antt =====
-- SysFork of src/syscalls.c as a whole.
use yalnix.Base.{
  ℕ, ◌<◌, ◌≡◌, refl, sym, ◌∙◌, ap, subst, ◌+◌, ◌≢◌, ◌⊎◌, inl, inr, Bool, true, false, arith, pos,
  ◌==◌, ==_refl,
}
use yalnix.Hardware.{Hardware, stack_pages}
use yalnix.Memory.{Memory, memory_alloc_page_table}
use yalnix.State.{modify-at, Kernel, ProcState, set_state, is_zombie, error}
use yalnix.Process.{process_make_ready}
use yalnix.Process.Ready.{Awake, make_ready-Awake, Made, make_ready-Made}
use yalnix.Life.{process_free_kernel_stack}
use yalnix.Ipc.{Outcome, returned}
use yalnix.Fork.{
  zero_pcb, alloc_stack, stack_given, process_alloc_kernel_stack, scratch_page, region_given, enter,
  equip, process_create_child, start_child, sys_fork,
}
use yalnix.Memory.Short.{Short, Short-after, Short-more}
use yalnix.Fork.Copy.Region.{mapped_pages}
use yalnix.Fork.Stack.{Taken-Used, Taken, Restored, StackTaken, alloc_stack-StackTaken}
use yalnix.Fork.Copy.Twin.{Twin, GivenBack}
use yalnix.Fork.Copy.Region.{Region, copy_region-Region}
use yalnix.Fork.Scratch.{Scratched, clear_scratch-Scratched, Scratched-IsIsolated}
use yalnix.Fork.Unwind.{free_stack-same, process_free_kernel_stack-StackFreed}
use yalnix.Fork.Promise.{CanFork, Born, Refused}
use yalnix.Fork.Child.{
  blanked, placed, stacked, dressed, filled, adopted, entered, stacked-other, filled-child,
  filled-other, create_child-region, enter-entered,
}
use yalnix.Fork.Stacked.{Taken-free, Taken-table, Taken-blank, Taken-IsIsolated}
use yalnix.Fork.Clone.{
  newborn, zeroed, cloned, cloned-child, cloned-parent, cloned-stranger, start_child-cloned,
}

-- Where SysFork ends.
pub Forked : ⦃hw : Hardware⦄ (child child_pt n : ℕ) → Kernel → Outcome × Kernel → Type 0
Forked child child_pt n k (o, k') = Born child child_pt n k o k' ⊎ Refused child k o k'

module _ ⦃hw : Hardware⦄ (child child_pt n : ℕ) (k : Kernel) (h : CanFork child child_pt k) where
  same_lack : {need : ℕ} → Short need (blanked child child_pt n k) → Short need k.memory
  same_lack s = record { done = s.done; few = s.few; taken = s.taken; every = s.every }

  -- A refusal once the stack could not be had,
  no_stack-Refused :
      (pfns : ℕ → ℕ) (x : Memory)
      → Restored (blanked child child_pt n k) x × Short stack_pages (blanked child child_pt n k)
      → Refused child k (returned error) (stacked child child_pt n k pfns x)
  unfolding stacked
  no_stack-Refused pfns x (r, s) = record {
    result = refl;
    short = Short-more (same_lack s) (omega arith);
    others = λ q new. stacked-other child child_pt n k pfns x q new;
    ready = refl;
    table = refl;
    frames = r.frames;
  }

  stack_of :
      (pfns to : ℕ → ℕ) (m x : Memory)
      → ((filled child child_pt n k pfns to m x).procs child).kernel_stack_pfns ≡ pfns
  stack_of pfns to m x =
      ap (λ b. b.kernel_stack_pfns) (filled-child child child_pt n k pfns to m x h.child_new)

  -- and once region 1 could not be copied.
  no_region-Refused :
      (pfns to : ℕ → ℕ) (m x : Memory)
      → Taken stack_pages (blanked child child_pt n k) pfns m
      → GivenBack child_pt m x
      → Short (mapped_pages hw.max_pt_len 0 (m.tables (k.procs k.current).region1_pt)) m
      → Refused child k
          (returned error)
          (process_free_kernel_stack child (filled child child_pt n k pfns to m x))
  unfolding filled dressed stacked
  no_region-Refused pfns to m x t g lack =
      let s =
        process_free_kernel_stack-StackFreed child pfns (filled child child_pt n k pfns to m x)
          h.child_no_idle (stack_of pfns to m x) in
      record {
        result = refl;
        short =
            subst (λ f. Short (stack_pages + mapped_pages hw.max_pt_len 0 f) k.memory)
              (λ i j. Taken-table child child_pt n k h t j i)
              (same_lack (Short-after (Taken-Used t) lack));
        others = λ q new. s.others q new ∙ filled-other child child_pt n k pfns to m x q new;
        ready = s.ready;
        table = s.table;
        frames = λ p.
            ap (λ y. y.allocated p) s.memory
            ∙ free_stack-same stack_pages (blanked child child_pt n k) m x pfns t h.reserved
                g.frames g.count p;
      }

  -- The kernel in which the child's region 1 was copied, from `m` to `x`.
  module _ (pfns to : ℕ → ℕ) (m x : Memory)
      (t : Taken stack_pages (blanked child child_pt n k) pfns m)
      (w : Twin child_pt (k.procs k.current).region1_pt (k.procs k.current).space m to x) where
    last : Kernel
    last = cloned child child_pt n k h.child_new pfns to m x

    m_kernel : m.kernel_pt ≡ k.memory.kernel_pt
    m_kernel = ap (λ y. y.kernel_pt) t.shape

    x_kernel : x.kernel_pt ≡ k.memory.kernel_pt
    x_kernel = w.kernel ∙ m_kernel

    last-memory :
        Scratched x last.memory × ((last.memory.tables x.kernel_pt scratch_page).valid ≡ false)
    unfolding last cloned zeroed entered adopted filled
    last-memory =
        clear_scratch-Scratched stack_pages 0 pfns x (λ e. h.kernel_live (sym x_kernel ∙ e))
          h.scratch_fits

    off_kernel : (t j : ℕ) → t ≢ k.memory.kernel_pt → last.memory.tables t j ≡ x.tables t j
    off_kernel t j e = last-memory.0.others t j (inl (λ q. e (q ∙ x_kernel)))

    used_frame : (p : ℕ) → m.allocated p ≡ true → last.memory.allocated p ≡ true
    used_frame p u = ap (λ f. f p) last-memory.0.frames ∙ w.kept p u

    born-Awake : Awake child (process_make_ready child last)
    unfolding last cloned zeroed entered adopted filled dressed stacked
    born-Awake =
        make_ready-Awake child last h.child_live h.child_no_idle
          (ap (λ b. is_zombie b.state) (cloned-child child child_pt n k h.child_new pfns to m x))

    made : Made child last (process_make_ready child last)
    unfolding last cloned zeroed entered adopted filled dressed stacked
    made =
        make_ready-Made child last h.child_live h.child_no_idle
          (ap (λ b. is_zombie b.state) (cloned-child child child_pt n k h.child_new pfns to m x))

    born_child :
        (process_make_ready child last).procs child
        ≡ record (newborn child child_pt n k h.child_new pfns to) { state = ProcState.ready }
    unfolding last
    born_child =
        made.self
        ∙ ap (set_state ProcState.ready) (cloned-child child child_pt n k h.child_new pfns to m x)

    born_table : (process_make_ready child last).process_table n ≡ child
    unfolding last cloned zeroed entered
    born_table = ap (λ f. f n) made.table ∙ rw (==_refl n) refl

    born_page :
        (j : ℕ) → (process_make_ready child last).memory.tables child_pt j ≡ x.tables child_pt j
    born_page j = ap (λ y. y.tables child_pt j) made.memory ∙ off_kernel child_pt j h.pt_user

    grown-Born : Born child child_pt n k (returned (pos n)) (process_make_ready child last)
    unfolding last
    grown-Born = record {
      result = refl;
      awake = born-Awake;
      pid = ap (λ b. b.pid) born_child;
      parent = ap (λ b. b.parent) born_child;
      table = born_table;
      family =
          made.other k.current (λ e. h.child_new (sym e))
          ∙ cloned-parent child child_pt n k h.child_new pfns to m x;
      strangers = λ q a b.
          made.other q a ∙ cloned-stranger child child_pt n k h.child_new pfns to m x q a b;
      context = ap (λ b. b.user_context) born_child;
      resume = ap (λ b. b.kernel_context) born_child;
      brk = ap (λ b. b.user_brk) born_child;
      region = ap (λ b. b.region1_pt) born_child;
      mapped = λ j a v.
          let r = w.mapped j a (ap (λ y. y.valid) (Taken-table child child_pt n k h t j) ∙ v) in
          rw (born_page j) (
            r.0,
            r.1 ∙ ap (λ y. y.prot) (Taken-table child child_pt n k h t j),
            Taken-free child child_pt n k h t _ r.2,
          );
      unmapped = λ j a v.
          rw (born_page j)
            (w.unmapped j a (ap (λ y. y.valid) (Taken-table child child_pt n k h t j) ∙ v));
      contents = λ j a b v inside.
          ap (λ b. b.space a) born_child
          ∙ w.contents j a b (ap (λ y. y.valid) (Taken-table child child_pt n k h t j) ∙ v) inside;
      stack = λ j a.
          let e = ap (λ b. b.kernel_stack_pfns j) born_child in
          rw (e, made.memory) ((t.fresh j a).1, used_frame (pfns j) (t.held j a));
      isolated = rw made.memory (Scratched-IsIsolated last-memory.0 last-memory.1 w.isolated);
    }

  -- From ProcessCopyRegion1's end on.
  entered-Forked :
      (pfns : ℕ → ℕ) (m : Memory) (r : Bool × (ℕ → ℕ) × Memory)
      → n < hw.max_procs
      → Taken stack_pages (blanked child child_pt n k) pfns m
      → Region child_pt (k.procs k.current).region1_pt (k.procs k.current).space m r
      → Forked child child_pt n k (
          start_child child true
            (enter k.current child (region_given child (dressed child child_pt n k pfns m) r)))
  unfolding Region Forked filled last
  entered-Forked pfns m (false, to, x) lt t g = inr (no_region-Refused pfns to m x t g.0 g.1)
  entered-Forked pfns m (true, to, x) lt t w =
      rw
        (ap (start_child child true) (enter-entered child child_pt n k pfns to m x h.child_new lt)
          ∙ start_child-cloned child child_pt n k h.child_new pfns to m x)
        (inl (grown-Born pfns to m x t w))

  -- From ProcessAllocKernelStack's end on.
  stacked-Forked :
      (r : Bool × (ℕ → ℕ) × Memory)
      → n < hw.max_procs
      → StackTaken stack_pages (blanked child child_pt n k) r
      → Forked child child_pt n k (
          start_child child true
            (equip k.current child (pos n) (stack_given child (placed child child_pt n k) r)))
  unfolding StackTaken Forked stacked dressed
  stacked-Forked (false, pfns, x) lt t = inr (no_stack-Refused pfns x t)
  stacked-Forked (true, pfns, m) lt t =
      rw
        (ap (λ z. start_child child true (enter k.current child z))
          (create_child-region child child_pt n k pfns m h.child_new))
        (entered-Forked pfns m _ lt t (
          copy_region-Region child_pt (k.procs k.current).region1_pt (k.procs k.current).space m
            h.pt_live h.pt_new (λ e. h.pt_user (e ∙ ap (λ y. y.kernel_pt) t.shape))
            (λ e. h.parent_user (e ∙ ap (λ y. y.kernel_pt) t.shape))
            (λ e. h.kernel_live (sym (ap (λ y. y.kernel_pt) t.shape) ∙ e)) h.scratch_fits
            (Taken-blank child child_pt n k h t) (λ _. 0)
            (Taken-IsIsolated child child_pt n k h t)))

  -- The first kernel stack frame is looked for.
  stack_start :
      process_alloc_kernel_stack child (placed child child_pt n k)
      ≡ stack_given child
          (placed child child_pt n k)
          (alloc_stack stack_pages 0 (λ _. 0) (blanked child child_pt n k))
  unfolding process_alloc_kernel_stack
  stack_start =
      ap
        (λ f.
          stack_given child (placed child child_pt n k)
            (alloc_stack stack_pages 0 f (blanked child child_pt n k)))
        (ap (λ b. b.kernel_stack_pfns)
          (modify-at child (λ b. record zero_pcb { region1_pt = child_pt }) k))

  -- A user process calls fork where calloc gives memory, the framework a process id of the process
  -- table, and KernelContextSwitch succeeds; no two page table entries share a frame and frame 0 is
  -- in use. Then the child is made, ready to run on from the fork with 0 in register 0, with its own
  -- copy of its parent's memory, and the parent gets its process id; or, where fewer frames are free
  -- than the child's kernel stack and its copy of the parent's pages need, the result is ERROR, no other process has changed, and the same frames are in use.
  pub sys_fork-Forked :
      n < hw.max_procs → Forked child child_pt n k (sys_fork child child_pt (pos n) true k)
  unfolding sys_fork process_create_child memory_alloc_page_table process_alloc_kernel_stack
  sys_fork-Forked lt =
      let a : (k.current == 0) ≡ false = ground (arith, h.user) in
      let b : (k.current == k.idle) ≡ false = ground (arith, h.no_idle) in
      let c : (child == 0) ≡ false = ground (arith, h.child_live) in
      let d : (child_pt == 0) ≡ false = ground (arith, h.pt_live) in
      rw (a, b)
        (rw (c, d)
          (rw stack_start (
            stacked-Forked _ lt
              (alloc_stack-StackTaken stack_pages (blanked child child_pt n k) (λ _. 0)))))
