-- ===== src/Fork/Clone.antt =====
-- ProcessCloneKernelContext of src/process.c, and SysFork from there on.
use yalnix.Base.{ℕ, ◌≡◌, refl, sym, ◌∙◌, ap, ◌≢◌, true, false, arith, pos, ◌==◌}
use yalnix.Hardware.{Hardware, stack_pages}
use yalnix.Memory.{Memory}
use yalnix.State.{modify-at, modify-off, Kernel, Pcb, Resume, modify, set_reg0}
use yalnix.Process.{process_make_ready}
use yalnix.Ipc.{returned}
use yalnix.Fork.{copy_stack, clear_scratch, kc_copy, fork_resume, start_child}
use yalnix.Fork.Child.{
  infant, entered, filled, dressed, stacked, adopted, adopted-child, adopted-parent, adopted-other,
  with_child,
}

module _ ⦃hw : Hardware⦄ where
  kc_at :
      (proc : ℕ) (r : Resume) (pfns : ℕ → ℕ) (K : Kernel)
      → (K.procs proc).kernel_stack_pfns ≡ pfns
      → kc_copy proc r K
        ≡ modify proc
            (λ b. record b { kernel_context = r })
            (record K { memory = clear_scratch (copy_stack stack_pages 0 pfns K.memory) })
  unfolding kc_copy
  kc_at proc r pfns K e = rw (sym e) refl

  resume_at :
      (child : ℕ) (K : Kernel)
      → child ≢ K.current
      → fork_resume child K ≡ (returned (K.procs child).pid, process_make_ready child K)
  unfolding fork_resume
  resume_at child K new = let a : (K.current == child) ≡ false = ground (arith, new) in rw a refl

module _ ⦃hw : Hardware⦄ (child child_pt n : ℕ) (k : Kernel) (new : child ≢ k.current) where
  abbrev cleared : Pcb → Pcb
  cleared b = set_reg0 (pos 0) b

  abbrev resumed : Pcb → Pcb
  resumed b = record b { kernel_context = Resume.in_fork }

  -- The child as it is put into the ready queue.
  abbrev pub newborn : (pfns to : ℕ → ℕ) → Pcb
  newborn pfns to = resumed (cleared (record (infant child child_pt n k pfns) { space = to }))

  unfoldable pub zeroed : (pfns to : ℕ → ℕ) (m x : Memory) → Kernel
  zeroed pfns to m x = modify child cleared (entered child child_pt n k pfns to m x)

  unfoldable pub cloned : (pfns to : ℕ → ℕ) (m x : Memory) → Kernel
  cloned pfns to m x = modify child resumed (record (zeroed pfns to m x) {
    memory = clear_scratch (copy_stack stack_pages 0 pfns (zeroed pfns to m x).memory);
  })

  zeroed-child :
      (pfns to : ℕ → ℕ) (m x : Memory)
      → (zeroed pfns to m x).procs child
        ≡ cleared (record (infant child child_pt n k pfns) { space = to })
  unfolding zeroed entered
  zeroed-child pfns to m x =
      modify-at child cleared (entered child child_pt n k pfns to m x)
      ∙ ap cleared (adopted-child child child_pt n k pfns to m x new)

  zeroed-other :
      (pfns to : ℕ → ℕ) (m x : Memory) (q : ℕ)
      → q ≢ child
      → (zeroed pfns to m x).procs q ≡ (adopted child child_pt n k pfns to m x).procs q
  unfolding zeroed entered
  zeroed-other pfns to m x q other =
      modify-off child cleared (entered child child_pt n k pfns to m x) q other

  pub cloned-child :
      (pfns to : ℕ → ℕ) (m x : Memory) → (cloned pfns to m x).procs child ≡ newborn pfns to
  unfolding cloned
  cloned-child pfns to m x =
      modify-at child resumed (zeroed pfns to m x) ∙ ap resumed (zeroed-child pfns to m x)

  cloned-other :
      (pfns to : ℕ → ℕ) (m x : Memory) (q : ℕ)
      → q ≢ child
      → (cloned pfns to m x).procs q ≡ (adopted child child_pt n k pfns to m x).procs q
  unfolding cloned
  cloned-other pfns to m x q other =
      modify-off child resumed (zeroed pfns to m x) q other ∙ zeroed-other pfns to m x q other

  pub cloned-parent :
      (pfns to : ℕ → ℕ) (m x : Memory)
      → (cloned pfns to m x).procs k.current ≡ with_child child child_pt n k (k.procs k.current)
  cloned-parent pfns to m x =
      cloned-other pfns to m x k.current (λ e. new (sym e))
      ∙ adopted-parent child child_pt n k pfns to m x new

  pub cloned-stranger :
      (pfns to : ℕ → ℕ) (m x : Memory) (q : ℕ)
      → q ≢ child
      → q ≢ k.current
      → (cloned pfns to m x).procs q ≡ k.procs q
  cloned-stranger pfns to m x q other user =
      cloned-other pfns to m x q other ∙ adopted-other child child_pt n k pfns to m x q other user

  pub start_child-cloned :
      (pfns to : ℕ → ℕ) (m x : Memory)
      → start_child child true (true, entered child child_pt n k pfns to m x)
        ≡ (returned (pos n), process_make_ready child (cloned pfns to m x))
  unfolding cloned zeroed entered adopted filled dressed stacked
  start_child-cloned pfns to m x =
      ap (fork_resume child) (
        kc_at child Resume.in_fork pfns (zeroed pfns to m x)
          (ap (λ b. b.kernel_stack_pfns) (zeroed-child pfns to m x)))
      ∙ resume_at child (cloned pfns to m x) new
      ∙ ap (λ v. (returned v, process_make_ready child (cloned pfns to m x)))
          (ap (λ b. b.pid) (cloned-child pfns to m x))
