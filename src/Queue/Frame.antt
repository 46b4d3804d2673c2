-- ===== src/Queue/Frame.antt =====
-- An operation on one queue of src/Queue.c leaves every other queue as it is.
use yalnix.Base.{ℕ, ◌≡◌, subst, ◌≢◌, List, [], ◌∷◌, ◌++◌, arith, All, All-left, All-right, NotIn}
use yalnix.Queue.{Links, queue_remove}
use yalnix.Queue.Chain.{Chain-at, last-NotIn, first-ne, unlink_next, unlink_prev}
use yalnix.Queue.Refine.{IsQueue, Apart, frame-IsQueue, push-frame, tests}
use yalnix.Queue.Trace.{Op, push, pop, unlink, step, Allowed, split, pop-nil, pop-cons}

abbrev pub Spares : Op → List ℕ → Type 0
Spares (push e) rs = NotIn e rs
Spares pop rs = Unit {0}
Spares (unlink e) rs = Unit {0}

module _ {h : Links} {q r : ℕ} where
  remove-frame :
      (ys : List ℕ) (e : ℕ) (zs rs : List ℕ)
      → IsQueue h q (ys ++ e ∷ zs)
      → IsQueue h r rs
      → Apart (r ∷ rs) (q ∷ ys ++ e ∷ zs)
      → IsQueue (queue_remove h q e) r rs
  unfolding queue_remove
  remove-frame ys e zs rs v w apart =
      rw (tests ys e zs v) (frame-IsQueue rs w (same (r ∷ rs) apart) (ground (arith, apart.0.0)))
    where
      spared : (c : ℕ) → NotIn c (q ∷ ys ++ e ∷ zs) → (e ≢ c) × (h.prev e ≢ c) × (h.next e ≢ c)
      spared c n =
          let (p, f) = Chain-at h.next h.prev q e ys zs q v.chain in
          let before = All-left (λ x. x ≢ c) ys (e ∷ zs) n.1 in
          let behind = All-right (λ x. x ≢ c) ys (e ∷ zs) n.1 in
          (behind.0, rw p (last-NotIn c q ys n.0 before), rw f (first-ne c q zs behind.1 n.0))

      same :
          (cs : List ℕ)
          → Apart cs (q ∷ ys ++ e ∷ zs)
          → All
              (λ c.
                (unlink_next h.next e (h.prev e) (h.next e) c ≡ h.next c)
                × (unlink_prev h.prev e (h.prev e) (h.next e) c ≡ h.prev c))
              cs
      same [] a = tt
      same (c ∷ cs) a =
          let (ne, nb, na) = spared c a.0 in ((ground arith, ground arith), same cs a.1)

  -- An allowed operation on the queue `q` leaves a queue `r` as it is, if the two share no entry
  -- and the operation pushes none of `r`'s.
  pub step-frame :
      (xs rs : List ℕ) (op : Op)
      → IsQueue h q xs
      → Allowed q xs op
      → IsQueue h r rs
      → Apart (r ∷ rs) (q ∷ xs)
      → Spares op (r ∷ rs)
      → IsQueue (step h q op).1 r rs
  unfolding step
  step-frame xs rs (push e) v a w apart new = push-frame xs rs e v w apart new
  step-frame [] rs pop v a w apart new = rw (pop-nil v) w
  step-frame (x ∷ xs) rs pop v a w apart new = rw (pop-cons v) (remove-frame [] x xs rs v w apart)
  step-frame xs rs (unlink e) v a w apart new =
      let (ys, zs, at, out) = split e xs a in
      remove-frame ys e zs rs (rw at at v) w (subst (λ t. Apart (r ∷ rs) (q ∷ t)) at apart)
