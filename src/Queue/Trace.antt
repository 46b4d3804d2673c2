-- ===== src/Queue/Trace.antt =====
-- Any run of queue operations gives on a linked queue of src/Queue.c what it gives on a list.
use yalnix.Base.{
  ℕ, ◌+◌, ◌^◌, ◌<◌, ◌≡◌, refl, ap, ◌≢◌, inl, inr, true, false, Option, none, some, List, [], ◌∷◌,
  ◌++◌, arith, NotIn, length, ◌==◌, Bool-cases,
}
use yalnix.Queue.{Links, queue_push_back, queue_remove, queue_pop_front}
use yalnix.Queue.Refine.{IsQueue, push-IsQueue, remove-IsQueue, queue_is_empty-eq}
use yalnix.Queue.Fifo

-- One of the operations that change a queue.
pub data Op : Type 0 where
  push : ℕ → Op
  pop : Op
  unlink : ℕ → Op

unfoldable pub step : Links → ℕ → Op → Option ℕ × Links
step h q (push e) = (none, queue_push_back h q e)
step h q pop = queue_pop_front h q
step h q (unlink e) = (none, queue_remove h q e)

unfoldable pub spec : List ℕ → Op → Option ℕ × List ℕ
spec xs (push e) = (none, Fifo.push_back xs e)
spec xs pop = Fifo.pop_front xs
spec xs (unlink e) = (none, Fifo.remove e xs)

-- The callers push an entry that is in no queue, and unlink one that is in this queue.
abbrev pub Allowed : ℕ → List ℕ → Op → Type 0
Allowed q xs (push e) = (e ≢ 0) × NotIn e (q ∷ xs) × (length xs + 1 < 2 ^ 31)
Allowed q xs pop = Unit {0}
Allowed q xs (unlink e) = Fifo.has e xs ≡ true

-- Where an entry stands in a list.
pub split :
    (e : ℕ) (xs : List ℕ)
    → Fifo.has e xs ≡ true
    → (ys : List ℕ) × (zs : List ℕ) × (xs ≡ ys ++ e ∷ zs) × (Fifo.remove e xs ≡ ys ++ zs)
split e [] h = cc
split e (x ∷ xs) h = elim (Bool-cases (x == e)) [
  | inl here ↦ ([], xs, ground arith, ground arith)
  | inr there ↦
      let (ys, zs, at, out) = split e xs (ground arith) in
      (x ∷ ys, zs, ap (◌∷◌ x) at, rw there (ap (◌∷◌ x) out))
]

pub pop-nil : {h : Links} {q : ℕ} → IsQueue h q [] → queue_pop_front h q ≡ (none, h)
unfolding queue_pop_front
pop-nil v = rw (queue_is_empty-eq [] v)

pub pop-cons :
    {h : Links} {q x : ℕ} {xs : List ℕ}
    → IsQueue h q (x ∷ xs)
    → queue_pop_front h q ≡ (some x, queue_remove h q x)
unfolding queue_pop_front
pop-cons {x} {xs} v =
    let more : (length (x ∷ xs) == 0) ≡ false = ground arith in
    rw (queue_is_empty-eq (x ∷ xs) v, v.chain.0, more)

-- One operation: the same result, and a linked queue that holds the new list.
pub step-spec :
    (h : Links) (q : ℕ) (xs : List ℕ) (op : Op)
    → IsQueue h q xs
    → Allowed q xs op
    → ((step h q op).0 ≡ (spec xs op).0) × IsQueue (step h q op).1 q (spec xs op).1
unfolding step spec
step-spec h q xs (push e) v (nz, new, fits) = (refl, push-IsQueue xs e v nz new fits)
step-spec h q [] pop v a = rw (pop-nil v) (refl, v)
step-spec h q (x ∷ xs) pop v a = rw (pop-cons v) (refl, (remove-IsQueue [] x xs v).0)
step-spec h q xs (unlink e) v a =
    let (ys, zs, at, out) = split e xs a in (refl, rw out (remove-IsQueue ys e zs (rw at at v)).0)

abbrev pub AllAllowed : ℕ → List ℕ → List Op → Type 0
AllAllowed q xs [] = Unit {0}
AllAllowed q xs (op ∷ ops) = Allowed q xs op × AllAllowed q (spec xs op).1 ops

pub run : Links → ℕ → List Op → List (Option ℕ) × Links
run h q [] = ([], h)
run h q (op ∷ ops) = let (r, h') = step h q op in let (rs, end) = run h' q ops in (r ∷ rs, end)

unfoldable pub run_spec : List ℕ → List Op → List (Option ℕ) × List ℕ
run_spec xs [] = ([], xs)
run_spec xs (op ∷ ops) =
    let (r, xs') = spec xs op in let (rs, end) = run_spec xs' ops in (r ∷ rs, end)

-- Every run of allowed operations on a linked queue gives the results that the list gives, in
-- order, and ends with a queue that holds the list's entries.
pub run-run_spec :
    (h : Links) (q : ℕ) (xs : List ℕ) (ops : List Op)
    → IsQueue h q xs
    → AllAllowed q xs ops
    → ((run h q ops).0 ≡ (run_spec xs ops).0) × IsQueue (run h q ops).1 q (run_spec xs ops).1
unfolding run run_spec
run-run_spec h q xs [] v a = (refl, v)
run-run_spec h q xs (op ∷ ops) v (a, later) =
    let (same, v') = step-spec h q xs op v a in
    let (rest, end) = run-run_spec (step h q op).1 q (spec xs op).1 ops v' later in (cc, end)
