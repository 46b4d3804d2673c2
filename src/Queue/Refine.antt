-- ===== src/Queue/Refine.antt =====
-- The linked queues of src/Queue.c against plain lists of entries.
use yalnix.Base.{
  ℕ, ◌+◌, ◌^◌, ◌<◌, ◌≡◌, sym, ◌∙◌, ◌≢◌, false, ◌||◌, List, [], ◌∷◌, ◌++◌, arith, All, All-append,
  All-left, All-right, NotIn, Distinct, length, length-append, ◌==◌,
}
use yalnix.Queue.{Links, queue_init, queue_is_empty, queue_push_back, queue_remove}
use yalnix.Queue.Chain.{
  Chain, Chain-last, Chain-at, frame, push-Chain, unlink-Chain, last-NotIn, first-ne,
}

-- The queue at `q` holds the entries `xs`, oldest first.
pub record IsQueue (h : Links) (q : ℕ) (xs : List ℕ) : Type 0 where
  pub chain : Chain h.next h.prev q xs q
  pub distinct : Distinct (q ∷ xs)
  pub nonzero : All (λ x. x ≢ 0) (q ∷ xs)
  pub counted : h.length q ≡ length xs
  pub small : length xs < 2 ^ 31

pub NotIn-append : (c : ℕ) (xs ys : List ℕ) → NotIn c xs → NotIn c ys → NotIn c (xs ++ ys)
NotIn-append c xs ys = All-append (λ x. x ≢ c) xs ys

pub Distinct-snoc : (xs : List ℕ) (e : ℕ) → Distinct xs → NotIn e xs → Distinct (xs ++ e ∷ [])
Distinct-snoc [] e d n = (tt, tt)
Distinct-snoc (x ∷ xs) e d n =
    (NotIn-append x xs (e ∷ []) d.0 (λ q. n.0 (sym q), tt), Distinct-snoc xs e d.1 n.1)

NotIn-without :
    (c : ℕ) (ys : List ℕ) (e : ℕ) (zs : List ℕ) → NotIn c (ys ++ e ∷ zs) → NotIn c (ys ++ zs)
NotIn-without c [] e zs n = n.1
NotIn-without c (y ∷ ys) e zs n = (n.0, NotIn-without c ys e zs n.1)

Distinct-without :
    (ys : List ℕ) (e : ℕ) (zs : List ℕ) → Distinct (ys ++ e ∷ zs) → Distinct (ys ++ zs)
Distinct-without [] e zs d = d.1
Distinct-without (y ∷ ys) e zs d = (NotIn-without y ys e zs d.0, Distinct-without ys e zs d.1)

length-without : (ys : List ℕ) (e : ℕ) (zs : List ℕ) → length (ys ++ e ∷ zs) ≡ length (ys ++ zs) + 1
length-without ys e zs = omega (arith, length-append ys (e ∷ zs), length-append ys zs)

-- QueueInit makes the queue empty.
pub queue_init-IsQueue : (h : Links) (q : ℕ) → q ≢ 0 → IsQueue (queue_init h q) q []
unfolding queue_init
queue_init-IsQueue h q nz = ground arith

module _ {h : Links} {q : ℕ} where
  -- QueueIsEmpty holds of the empty list only.
  pub queue_is_empty-eq : (xs : List ℕ) → IsQueue h q xs → queue_is_empty h q ≡ (length xs == 0)
  unfolding queue_is_empty
  queue_is_empty-eq xs v = rw v.counted

  -- QueuePushBack puts a new entry at the end.
  pub push-IsQueue :
      (xs : List ℕ) (e : ℕ)
      → IsQueue h q xs
      → e ≢ 0
      → NotIn e (q ∷ xs)
      → length xs + 1 < 2 ^ 31
      → IsQueue (queue_push_back h q e) q (xs ++ e ∷ [])
  unfolding queue_push_back
  push-IsQueue xs e v nz new fits = record {
    chain =
        push-Chain h.next h.prev q e (h.prev q) q xs v.chain v.distinct v.distinct.0 new (new.0)
          (Chain-last h.next h.prev q xs q v.chain);
    distinct = (
      NotIn-append q xs (e ∷ []) v.distinct.0 (λ p. new.0 (sym p), tt),
      Distinct-snoc xs e v.distinct.1 new.1,
    );
    nonzero = (v.nonzero.0, All-append (λ x. x ≢ 0) xs (e ∷ []) v.nonzero.1 (nz, tt));
    counted = ground (arith, v.counted, length-append xs (e ∷ []));
    small = omega (arith, length-append xs (e ∷ []));
  }

-- A queue stays as it is where the links of its entries and its length do.
pub frame-IsQueue :
    {h h' : Links} {r : ℕ} (rs : List ℕ)
    → IsQueue h r rs
    → All (λ c. (h'.next c ≡ h.next c) × (h'.prev c ≡ h.prev c)) (r ∷ rs)
    → h'.length r ≡ h.length r
    → IsQueue h' r rs
frame-IsQueue {h} {h'} {r} rs v same len = record {
  chain = frame h.next h.prev h'.next h'.prev r rs r (same.0.0) (same.0.1) same.1 v.chain;
  distinct = v.distinct;
  nonzero = v.nonzero;
  counted = len ∙ v.counted;
  small = v.small;
}

-- The entries `ys` are none of `xs`.
abbrev pub Apart : List ℕ → List ℕ → Type 0
Apart ys xs = All (λ c. NotIn c xs) ys

module _ {h : Links} {q : ℕ} where
  -- Another queue does not notice a QueuePushBack.
  pub push-frame :
      {r : ℕ} (xs rs : List ℕ) (e : ℕ)
      → IsQueue h q xs
      → IsQueue h r rs
      → Apart (r ∷ rs) (q ∷ xs)
      → NotIn e (r ∷ rs)
      → IsQueue (queue_push_back h q e) r rs
  unfolding queue_push_back
  push-frame {r} xs rs e v w apart new =
      frame-IsQueue rs w (same (r ∷ rs) apart new) (ground (arith, apart.0.0))
    where
      spared :
          (c : ℕ)
          → NotIn c (q ∷ xs)
          → c ≢ e
          → ((queue_push_back h q e).next c ≡ h.next c)
            × ((queue_push_back h q e).prev c ≡ h.prev c)
      spared c n ne =
          ground (arith, last-NotIn c q xs n.0 n.1, Chain-last h.next h.prev q xs q v.chain)

      same :
          (cs : List ℕ)
          → Apart cs (q ∷ xs)
          → NotIn e cs
          → All
              (λ c.
                ((queue_push_back h q e).next c ≡ h.next c)
                × ((queue_push_back h q e).prev c ≡ h.prev c))
              cs
      same [] a n = tt
      same (c ∷ cs) a n = (spared c a.0 n.0, same cs a.1 n.1)

  module _ (ys : List ℕ) (e : ℕ) (zs : List ℕ) (v : IsQueue h q (ys ++ e ∷ zs)) where
    -- An entry of a queue has both of its links set.
    pub linked : (h.prev e ≢ 0) × (h.next e ≢ 0)
    linked =
        let (p, n) = Chain-at h.next h.prev q e ys zs q v.chain in
        let out = v.nonzero.1 in
        let back = All-left (λ x. x ≢ 0) ys (e ∷ zs) out in
        let front = All-right (λ x. x ≢ 0) ys (e ∷ zs) out in
        ground (arith, last-NotIn 0 q ys v.nonzero.0 back, first-ne 0 q zs front.1 v.nonzero.0)

    pub tests : ((h.prev e == 0) || (h.next e == 0)) ≡ false
    tests = ground (arith, linked.0, linked.1)

    -- QueueRemove takes an entry out, leaves the others in order, and clears its links.
    pub remove-IsQueue :
        IsQueue (queue_remove h q e) q (ys ++ zs)
        × ((queue_remove h q e).prev e ≡ 0)
        × ((queue_remove h q e).next e ≡ 0)
    unfolding queue_remove
    remove-IsQueue =
        let (p, n) = Chain-at h.next h.prev q e ys zs q v.chain in
        let qe : q ≢ e = λ i. (All-right (λ x. x ≢ q) ys (e ∷ zs) v.distinct.0).0 (sym i) in
        rw tests (
          record {
            chain =
                unlink-Chain h.next h.prev q e ys zs q (h.prev e) (h.next e) v.chain v.distinct.0
                  v.distinct.0 v.distinct.1 qe p n;
            distinct =
                (NotIn-without q ys e zs v.distinct.0, Distinct-without ys e zs v.distinct.1);
            nonzero = (v.nonzero.0, NotIn-without 0 ys e zs v.nonzero.1);
            counted = ground (arith, v.counted, v.small, length-without ys e zs);
            small = omega (arith, v.small, length-without ys e zs);
          },
          ground arith,
          ground arith,
        )
