-- ===== src/Fork/Stack.antt =====
-- ProcessAllocKernelStack of src/process.c: the frames of a kernel stack.
use yalnix.Base.{
  ℕ, zero, suc, ◌+◌, ◌<◌, ◌≡◌, refl, ◌∙◌, ap, ◌≢◌, ◌⊎◌, inl, inr, Bool, true, false, arith, update,
  pos, leb,
}
use yalnix.Memory.{Memory, frame_free}
use yalnix.Memory.Short.{Among, Short, Used, Used-Short}
use yalnix.Memory.Frames.{mark, frame_alloc-cases}
use yalnix.Fork.{give_back, alloc_stack}

-- From `m` to `n` the frames of the entries below `i` of `pfns`, and no others, were taken; they
-- were free and are different.
pub record Taken (i : ℕ) (m : Memory) (pfns : ℕ → ℕ) (n : Memory) : Type 0 where
  pub fresh : (j : ℕ) → j < i → (pfns j < m.frame_count) × (m.allocated (pfns j) ≡ false)
  pub held : (j : ℕ) → j < i → n.allocated (pfns j) ≡ true
  pub distinct : (j l : ℕ) → j < l → l < i → pfns j ≢ pfns l
  pub spared : (p : ℕ) → ((j : ℕ) → j < i → pfns j ≢ p) → n.allocated p ≡ m.allocated p
  pub shape : n ≡ record m { allocated = n.allocated }

-- The frame table is as it was, and so is the rest.
pub record Restored (m n : Memory) : Type 0 where
  pub frames : (p : ℕ) → n.allocated p ≡ m.allocated p
  pub shape : n ≡ record m { allocated = n.allocated }

take-Taken :
    {i : ℕ} {m : Memory} {pfns : ℕ → ℕ} {n : Memory} (f : ℕ)
    → f < n.frame_count
    → n.allocated f ≡ false
    → Taken i m pfns n
    → Taken (i + 1) m (update pfns i f) (mark n f)
take-Taken {i} {m} {pfns} {n} f lt free t =
    let count : n.frame_count ≡ m.frame_count = rw t.shape refl in
    record {
      fresh = λ j a. ground (arith, t.fresh j, count, t.spared f, t.held);
      held = λ j a. ground (arith, t.held j);
      distinct = λ j l a b. ground (arith, t.distinct j l, t.held j);
      spared = λ p a.
          let here : f ≢ p = λ e. a i (omega arith) (ground (arith, e)) in
          let before = t.spared p (λ j b e. a j (omega arith) (ground (arith, e))) in
          ground (arith, here, before);
      shape = ap (λ x. mark x f) t.shape;
    }

abbrev unmark : Memory → (ℕ → Bool) → Memory
unmark m a = record m { allocated = a }

give_one :
    (i : ℕ) (m : Memory) (pfns : ℕ → ℕ) (n : Memory)
    → Taken (suc i) m pfns n
    → Taken i m pfns (frame_free (pos (pfns i)) n)
unfolding frame_free
give_one i m pfns n t =
    let count : n.frame_count ≡ m.frame_count = rw t.shape refl in
    let inside = (t.fresh i (omega arith)).0 in
    let free : leb n.frame_count (pfns i) ≡ false = ground (arith, count, inside) in
    record {
      fresh = λ j a. t.fresh j (omega arith);
      held =
          λ j a. rw free (ground (arith, t.held j (omega arith), t.distinct j i a (omega arith)));
      distinct = λ j l a b. t.distinct j l a (omega arith);
      spared = λ p a. rw free (elim (same_or p) [
        | inl e ↦ ground (arith, e, t.fresh i)
        | inr apart ↦ ground (
          arith,
          apart,
          t.spared p (λ j b e. elim (last j b) [
            | inl before ↦ a j before e
            | inr at ↦ apart (ground (arith, e, at))
          ]),
        )
      ]);
      shape = rw free (ap (λ x. unmark x (update n.allocated (pfns i) false)) t.shape);
    }
  where
    same_or : (p : ℕ) → (p ≡ pfns i) ⊎ (p ≢ pfns i)
    same_or p = omega arith

    last : (j : ℕ) → j < suc i → (j < i) ⊎ (j ≡ i)
    last j b = omega arith

-- The frames that were taken, given back from the last on.
give_back-Restored :
    (i : ℕ) (m : Memory) (pfns : ℕ → ℕ) (n : Memory)
    → Taken i m pfns n
    → Restored m (give_back i pfns n)
unfolding give_back
give_back-Restored zero m pfns n t = record {
  frames = λ p. t.spared p (λ j a. absurd (omega arith));
  shape = t.shape;
}
give_back-Restored (suc i) m pfns n t =
    give_back-Restored i m pfns (frame_free (pos (pfns i)) n) (give_one i m pfns n t)

-- No more frames were taken than entries set.
pub Taken-Used : {i : ℕ} {m : Memory} {pfns : ℕ → ℕ} {n : Memory} → Taken i m pfns n → Used i m n
Taken-Used {i} {m} {pfns} {n} t = record {
  taken = pfns;
  count = ap (λ y. y.frame_count) t.shape;
  every =
      λ p lt free. elim (look i p) [ inl a ↦ inr a | inr apart ↦ inl (t.spared p apart ∙ free) ];
}
  where
    look : (c p : ℕ) → Among c pfns p ⊎ ((j : ℕ) → j < c → pfns j ≢ p)
    look zero p = inr (λ j a. absurd (omega arith))
    look (suc c) p = elim (look c p) [
      | inl (j, a, e) ↦ inl (j, omega arith, e)
      | inr none_yet ↦ elim (same c p) [
        | inl e ↦ inl (c, omega arith, e)
        | inr off ↦ inr (λ j a. elim (last c j a) [
          | inl b ↦ none_yet j b
          | inr e ↦ λ q. off (ground (arith, e, q))
        ])
      ]
    ]
      where
        same : (c p : ℕ) → (pfns c ≡ p) ⊎ (pfns c ≢ p)
        same c p = omega arith

        last : (c j : ℕ) → j < suc c → (j < c) ⊎ (j ≡ c)
        last c j a = omega arith

-- Where ProcessAllocKernelStack's loop over `total` frames ends.
unfoldable pub StackTaken : (total : ℕ) → Memory → Bool × (ℕ → ℕ) × Memory → Type 0
StackTaken total m (true, pfns, n) = Taken total m pfns n
StackTaken total m (false, pfns, n) = Restored m n × Short total m

alloc_stack-StackTaken_from :
    (left i : ℕ) (total : ℕ) (m : Memory) (pfns : ℕ → ℕ) (n : Memory)
    → i + left ≡ total
    → Taken i m pfns n
    → StackTaken total m (alloc_stack left i pfns n)
unfolding alloc_stack StackTaken
alloc_stack-StackTaken_from zero i total m pfns n e t =
    let same : i ≡ total = omega arith in rw same at t
alloc_stack-StackTaken_from (suc left) i total m pfns n e t = elim (frame_alloc-cases n) [
  | inl full ↦
      rw (full, alloc_stack)
        (rw full
          (give_back-Restored i m pfns n t, Used-Short total (omega arith) full (Taken-Used t)))
  | inr (f, got, lt, free) ↦
      rw (got, alloc_stack)
        (rw got (
          alloc_stack-StackTaken_from left (i + 1) total m (update pfns i f) (mark n f)
            (omega arith) (take-Taken f lt free t)))
]

pub Taken-refl : (m : Memory) (pfns : ℕ → ℕ) → Taken 0 m pfns m
Taken-refl m pfns = record {
  fresh = λ j a. absurd (omega arith);
  held = λ j a. absurd (omega arith);
  distinct = λ j l a b. absurd (omega arith);
  spared = λ p a. refl;
  shape = refl;
}

-- ProcessAllocKernelStack takes `total` frames that were free, all different, and no others, or it
-- leaves the same frames in use as before, where fewer than `total` are free; nothing else of the memory changes.
pub alloc_stack-StackTaken :
    (total : ℕ) (m : Memory) (pfns : ℕ → ℕ) → StackTaken total m (alloc_stack total 0 pfns m)
alloc_stack-StackTaken total m pfns =
    alloc_stack-StackTaken_from total 0 total m pfns m (omega arith) (Taken-refl m pfns)
