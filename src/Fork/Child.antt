-- ===== src/Fork/Child.antt =====
-- SysFork of src/syscalls.c and ProcessCreateChild of src/process.c, from the parent's call to the
-- child in the ready queue.
use yalnix.Base.{ℕ, ◌<◌, ◌≡◌, refl, sym, ◌∙◌, ap, ap₂, ◌≢◌, true, arith, pos, ltb, update}
use yalnix.Hardware.{Hardware}
use yalnix.Memory.{Memory, zero_pte}
use yalnix.State.{modify-at, modify-off, Kernel, Pcb, modify}
use yalnix.Queue.Fifo.{push_back}
use yalnix.Fork.{
  zero_pcb, copy_region, region_given, process_copy_region1, process_register, inherit, enter,
  place,
}

module _ ⦃hw : Hardware⦄ (child child_pt n : ℕ) (k : Kernel) where
  -- The child at its birth, but for its region 1.
  abbrev pub infant : (ℕ → ℕ) → Pcb
  infant pfns =
      inherit (pos n) k.current (k.procs k.current)
        (record zero_pcb { region1_pt = child_pt; kernel_stack_pfns = pfns })

  abbrev pub blanked : Memory
  blanked = record k.memory { tables = update k.memory.tables child_pt (λ _. zero_pte) }

  abbrev pub placed : Kernel
  placed = place child child_pt blanked k

  abbrev pub with_stack : (ℕ → ℕ) → Pcb → Pcb
  with_stack pfns b = record b { kernel_stack_pfns = pfns }

  abbrev pub with_space : (ℕ → ℕ) → Pcb → Pcb
  with_space to b = record b { space = to }

  abbrev pub with_child : Pcb → Pcb
  with_child b = record b { children = push_back b.children child }

  -- The kernel once the child has its kernel stack.
  unfoldable pub stacked : (ℕ → ℕ) → Memory → Kernel
  stacked pfns m = modify child (with_stack pfns) (record placed { memory = m })

  -- Once it has inherited its fields,
  unfoldable pub dressed : (ℕ → ℕ) → Memory → Kernel
  dressed pfns m =
      modify child (inherit (pos n) k.current ((stacked pfns m).procs k.current)) (stacked pfns m)

  -- has its region 1,
  unfoldable pub filled : (pfns to : ℕ → ℕ) → (m x : Memory) → Kernel
  filled pfns to m x = modify child (with_space to) (record (dressed pfns m) { memory = x })

  -- and is one of its parent's children and in the process table.
  unfoldable pub adopted : (pfns to : ℕ → ℕ) → (m x : Memory) → Kernel
  adopted pfns to m x = modify k.current with_child (filled pfns to m x)

  unfoldable pub entered : (pfns to : ℕ → ℕ) → (m x : Memory) → Kernel
  entered pfns to m x = record (adopted pfns to m x) {
    process_table = update (adopted pfns to m x).process_table n child;
  }

  pub stacked-child :
      (pfns : ℕ → ℕ) (m : Memory)
      → (stacked pfns m).procs child
        ≡ record zero_pcb { region1_pt = child_pt; kernel_stack_pfns = pfns }
  unfolding stacked
  stacked-child pfns m =
      modify-at child (with_stack pfns) (record placed { memory = m })
      ∙ ap (with_stack pfns) (modify-at child (λ b. record zero_pcb { region1_pt = child_pt }) k)

  pub stacked-other :
      (pfns : ℕ → ℕ) (m : Memory) (q : ℕ) → q ≢ child → (stacked pfns m).procs q ≡ k.procs q
  unfolding stacked
  stacked-other pfns m q new =
      modify-off child (with_stack pfns) (record placed { memory = m }) q new
      ∙ modify-off child (λ b. record zero_pcb { region1_pt = child_pt }) k q new

  pub dressed-child :
      (pfns : ℕ → ℕ) (m : Memory) → child ≢ k.current → (dressed pfns m).procs child ≡ infant pfns
  unfolding dressed
  dressed-child pfns m new =
      modify-at child (inherit (pos n) k.current ((stacked pfns m).procs k.current))
        (stacked pfns m)
      ∙ ap₂ (inherit (pos n) k.current) (stacked-other pfns m k.current (λ e. new (sym e)))
          (stacked-child pfns m)

  pub dressed-other :
      (pfns : ℕ → ℕ) (m : Memory) (q : ℕ) → q ≢ child → (dressed pfns m).procs q ≡ k.procs q
  unfolding dressed
  dressed-other pfns m q new =
      modify-off child (inherit (pos n) k.current ((stacked pfns m).procs k.current))
        (stacked pfns m) q new
      ∙ stacked-other pfns m q new

  pub filled-child :
      (pfns to : ℕ → ℕ) (m x : Memory)
      → child ≢ k.current
      → (filled pfns to m x).procs child ≡ record (infant pfns) { space = to }
  unfolding filled
  filled-child pfns to m x new =
      modify-at child (with_space to) (record (dressed pfns m) { memory = x })
      ∙ ap (with_space to) (dressed-child pfns m new)

  pub filled-other :
      (pfns to : ℕ → ℕ) (m x : Memory) (q : ℕ)
      → q ≢ child
      → (filled pfns to m x).procs q ≡ k.procs q
  unfolding filled
  filled-other pfns to m x q new =
      modify-off child (with_space to) (record (dressed pfns m) { memory = x }) q new
      ∙ dressed-other pfns m q new

  pub adopted-child :
      (pfns to : ℕ → ℕ) (m x : Memory)
      → child ≢ k.current
      → (adopted pfns to m x).procs child ≡ record (infant pfns) { space = to }
  unfolding adopted
  adopted-child pfns to m x new =
      modify-off k.current with_child (filled pfns to m x) child new ∙ filled-child pfns to m x new

  pub adopted-parent :
      (pfns to : ℕ → ℕ) (m x : Memory)
      → child ≢ k.current
      → (adopted pfns to m x).procs k.current ≡ with_child (k.procs k.current)
  unfolding adopted
  adopted-parent pfns to m x new =
      modify-at k.current with_child (filled pfns to m x)
      ∙ ap with_child (filled-other pfns to m x k.current (λ e. new (sym e)))

  pub adopted-other :
      (pfns to : ℕ → ℕ) (m x : Memory) (q : ℕ)
      → q ≢ child
      → q ≢ k.current
      → (adopted pfns to m x).procs q ≡ k.procs q
  unfolding adopted
  adopted-other pfns to m x q new user =
      modify-off k.current with_child (filled pfns to m x) q user ∙ filled-other pfns to m x q new

  copy_at :
      (dst parent d s : ℕ) (f t : ℕ → ℕ) (K : Kernel)
      → (K.procs dst).region1_pt ≡ d
      → (K.procs parent).region1_pt ≡ s
      → (K.procs parent).space ≡ f
      → (K.procs dst).space ≡ t
      → process_copy_region1 dst parent K ≡ region_given dst K (copy_region d s f t K.memory)
  unfolding process_copy_region1
  copy_at dst parent d s f t K a b c e = rw (sym a, sym b, sym c, sym e) refl

  register_at :
      (proc : ℕ) (K : Kernel)
      → (K.procs proc).pid ≡ pos n
      → n < hw.max_procs
      → process_register proc K ≡ record K { process_table = update K.process_table n proc }
  unfolding process_register
  register_at proc K e lt = let c : ltb n hw.max_procs ≡ true = ground arith in rw e (rw c refl)

  pub create_child-region :
      (pfns : ℕ → ℕ) (m : Memory)
      → child ≢ k.current
      → process_copy_region1 child k.current (dressed pfns m)
        ≡ region_given child (dressed pfns m) (
            copy_region child_pt
              (k.procs k.current).region1_pt
              (k.procs k.current).space
              (λ _. 0)
              m)
  unfolding dressed stacked
  create_child-region pfns m new =
      copy_at child k.current child_pt (k.procs k.current).region1_pt (k.procs k.current).space
        (λ _. 0) (dressed pfns m) (ap (λ b. b.region1_pt) (dressed-child pfns m new))
        (ap (λ b. b.region1_pt) (dressed-other pfns m k.current (λ e. new (sym e))))
        (ap (λ b. b.space) (dressed-other pfns m k.current (λ e. new (sym e))))
        (ap (λ b. b.space) (dressed-child pfns m new))

  pub enter-entered :
      (pfns to : ℕ → ℕ) (m x : Memory)
      → child ≢ k.current
      → n < hw.max_procs
      → enter k.current child (true, filled pfns to m x) ≡ (true, entered pfns to m x)
  unfolding entered adopted
  enter-entered pfns to m x new lt =
      ap (λ z. (true, z))
        (register_at child (adopted pfns to m x) (ap (λ b. b.pid) (adopted-child pfns to m x new))
          lt)
