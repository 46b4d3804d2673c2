-- ===== src/Fork/Unwind.antt =====
-- ProcessFreeKernelStack of src/process.c after a fork that failed: the frames of the new kernel
-- stack are given back.
use yalnix.Base.{
  ℕ, zero, suc, ◌+◌, ◌<◌, ◌≤◌, ◌≡◌, refl, sym, ◌∙◌, ap, ◌≢◌, ◌⊎◌, inl, inr, true, false, arith, pos,
  ◌==◌, Bool-cases, if◌then◌else◌,
}
use yalnix.Hardware.{Hardware, stack_pages}
use yalnix.Memory.{Memory, frame_free}
use yalnix.Fork.Stack.{Taken}
use yalnix.State.{Kernel}
use yalnix.Life.{free_stack_frames, process_free_kernel_stack}

free_one : (p : ℕ) → Memory → Memory
free_one p m = if p == 0 then m else frame_free (pos p) m

free_one-off : (p q : ℕ) (m : Memory) → p ≢ q → (free_one p m).allocated q ≡ m.allocated q
unfolding free_one frame_free
free_one-off p q m e = ground (arith, e)

free_one-at : (p : ℕ) (m : Memory) → p ≢ 0 → p < m.frame_count → (free_one p m).allocated p ≡ false
unfolding free_one frame_free
free_one-at p m nz lt = ground (arith, nz)

free_one-down : (p q : ℕ) (m : Memory) → m.allocated q ≡ false → (free_one p m).allocated q ≡ false
unfolding free_one frame_free
free_one-down p q m e = ground (arith, e)

free_one-count : (p : ℕ) (m : Memory) → (free_one p m).frame_count ≡ m.frame_count
unfolding free_one frame_free
free_one-count p m = ground arith

module _ ⦃hw : Hardware⦄ where
  free-down :
      (left i : ℕ) (pfns : ℕ → ℕ) (q : ℕ) (m : Memory)
      → m.allocated q ≡ false
      → (free_stack_frames left i pfns m).allocated q ≡ false
  unfolding free_stack_frames free_one
  free-down zero i pfns q m e = e
  free-down (suc left) i pfns q m e =
      free-down left (i + 1) pfns q (free_one (pfns i) m) (free_one-down (pfns i) q m e)

  free-off :
      (left i : ℕ) (pfns : ℕ → ℕ) (q : ℕ) (m : Memory)
      → ((j : ℕ) → j < i + left → pfns j ≢ q)
      → (free_stack_frames left i pfns m).allocated q ≡ m.allocated q
  unfolding free_stack_frames free_one
  free-off zero i pfns q m e = refl
  free-off (suc left) i pfns q m e =
      free-off left (i + 1) pfns q (free_one (pfns i) m) (λ j a. e j (omega arith))
      ∙ free_one-off (pfns i) q m (e i (omega arith))

  free-at :
      (left i : ℕ) (pfns : ℕ → ℕ) (j : ℕ) (m : Memory)
      → i ≤ j
      → j < i + left
      → pfns j ≢ 0
      → pfns j < m.frame_count
      → (free_stack_frames left i pfns m).allocated (pfns j) ≡ false
  unfolding free_stack_frames free_one
  free-at zero i pfns j m a b nz lt = absurd (omega arith)
  free-at (suc left) i pfns j m a b nz lt = elim (first i j a) [
    | inl e ↦
        free-down left (i + 1) pfns (pfns j) (free_one (pfns i) m)
          (rw e (free_one-at (pfns j) m nz lt))
    | inr late ↦
        free-at left (i + 1) pfns j (free_one (pfns i) m) late (omega arith) nz
          (rw (free_one-count (pfns i) m) lt)
  ]
    where
      first : (i j : ℕ) → i ≤ j → (i ≡ j) ⊎ (i + 1 ≤ j)
      first i j a = omega arith

  -- From `m` a kernel stack was taken, and from there on, up to `x`, what else was taken was given
  -- back: then the same frames are in use as before the stack was taken.
  pub free_stack-same :
      (total : ℕ) (m n x : Memory) (pfns : ℕ → ℕ)
      → Taken total m pfns n
      → m.allocated 0 ≡ true
      → ((p : ℕ) → x.allocated p ≡ n.allocated p)
      → x.frame_count ≡ n.frame_count
      → (p : ℕ) → (free_stack_frames total 0 pfns x).allocated p ≡ m.allocated p
  free_stack-same total m n x pfns t zero_used same count p = elim (Bool-cases (m.allocated p)) [
    | inl u ↦
        let off : (j : ℕ) → j < total → pfns j ≢ p = λ j a e. ground (arith, t.fresh j a, e, u) in
        free-off total 0 pfns p x (λ j a. off j (omega arith)) ∙ same p ∙ t.spared p off
    | inr f ↦ elim (Bool-cases ((free_stack_frames total 0 pfns x).allocated p)) [
      | inl u ↦
          let off : (j : ℕ) → j < total → pfns j ≢ p = λ j a e.
            let g =
              free-at total 0 pfns j x (omega arith) (omega arith)
                (λ z. ground (arith, t.fresh j a, z, zero_used))
                (ground (arith, t.fresh j a, count, n_count)) in
            ground (arith, g, e, u) in
          free-off total 0 pfns p x (λ j a. off j (omega arith)) ∙ same p ∙ t.spared p off
      | inr g ↦ g ∙ sym f
    ]
  ]
    where
      n_count : n.frame_count ≡ m.frame_count
      n_count = ap (λ y. y.frame_count) t.shape

  pub record StackFreed (proc : ℕ) (pfns : ℕ → ℕ) (k k' : Kernel) : Type 0 where
    pub memory : k'.memory ≡ free_stack_frames stack_pages 0 pfns k.memory
    pub others : (q : ℕ) → q ≢ proc → k'.procs q ≡ k.procs q
    pub ready : k'.ready_queue ≡ k.ready_queue
    pub table : k'.process_table ≡ k.process_table

  pub process_free_kernel_stack-StackFreed :
      (proc : ℕ) (pfns : ℕ → ℕ) (k : Kernel)
      → proc ≢ k.idle
      → (k.procs proc).kernel_stack_pfns ≡ pfns
      → StackFreed proc pfns k (process_free_kernel_stack proc k)
  unfolding process_free_kernel_stack
  process_free_kernel_stack-StackFreed proc pfns k user e =
      let a : (proc == k.idle) ≡ false = ground (arith, user) in
      rw (a, sym e)
        (record {
          memory = refl;
          others = λ q other. ground (arith, other);
          ready = refl;
          table = refl;
        })
