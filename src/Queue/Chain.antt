-- ===== src/Queue/Chain.antt =====
-- Chains of links: what QueuePushBack and QueueRemove do to the entries between two ends.
use yalnix.Base.{
  ℕ, ◌≡◌, ◌∙◌, sym, ◌≢◌, List, [], ◌∷◌, ◌++◌, arith, All, NotIn, Distinct, update, All-left,
  All-right,
}

-- From `a` the `next` fields lead through `xs` to `b`, and the `prev` fields lead back.
abbrev pub Chain : (next prev : ℕ → ℕ) → ℕ → List ℕ → ℕ → Type 0
Chain next prev a [] b = (next a ≡ b) × (prev b ≡ a)
Chain next prev a (x ∷ xs) b = (next a ≡ x) × (prev x ≡ a) × Chain next prev x xs b

abbrev pub last : ℕ → List ℕ → ℕ
last a [] = a
last a (x ∷ xs) = last x xs

abbrev pub first : List ℕ → ℕ → ℕ
first [] b = b
first (x ∷ xs) b = x

pub Chain-last :
    (next prev : ℕ → ℕ) (a : ℕ) (xs : List ℕ) (b : ℕ) → Chain next prev a xs b → prev b ≡ last a xs
Chain-last next prev a [] b c = c.1
Chain-last next prev a (x ∷ xs) b c = Chain-last next prev x xs b c.2

pub Chain-first :
    (next prev : ℕ → ℕ) (a : ℕ) (xs : List ℕ) (b : ℕ) → Chain next prev a xs b → next a ≡ first xs b
Chain-first next prev a [] b c = c.0
Chain-first next prev a (x ∷ xs) b c = c.0

-- The last entry is one of them.
pub last-NotIn : (c x : ℕ) (xs : List ℕ) → x ≢ c → NotIn c xs → last x xs ≢ c
last-NotIn c x [] h k = h
last-NotIn c x (y ∷ xs) h k = last-NotIn c y xs k.0 k.1

-- A chain survives writes elsewhere.
pub frame :
    (next prev next' prev' : ℕ → ℕ) (a : ℕ) (xs : List ℕ) (b : ℕ)
    → next' a ≡ next a
    → prev' b ≡ prev b
    → All (λ c. (next' c ≡ next c) × (prev' c ≡ prev c)) xs
    → Chain next prev a xs b
    → Chain next' prev' a xs b
frame next prev next' prev' a [] b n p same c = (n ∙ c.0, p ∙ c.1)
frame next prev next' prev' a (x ∷ xs) b n p same c =
    (n ∙ c.0, same.0.1 ∙ c.1, frame next prev next' prev' x xs b same.0.0 p same.1 c.2)

-- The links after an entry `e` is put between `last` and `q`.
pub push-Chain :
    (next prev : ℕ → ℕ) (q e l a : ℕ) (xs : List ℕ)
    → Chain next prev a xs q
    → Distinct (a ∷ xs)
    → NotIn q xs
    → NotIn e (a ∷ xs)
    → q ≢ e
    → l ≡ last a xs
    → Chain (update (update next e q) l e) (update (update prev e l) q e) a (xs ++ e ∷ []) q
push-Chain next prev q e l a [] c d nq ne qe end = ground arith
push-Chain next prev q e l a (x ∷ xs) c d nq ne qe end =
    let apart : last x xs ≢ a = last-NotIn a x xs d.0.0 d.0.1 in
    (ground arith, ground arith, push-Chain next prev q e l x xs c.2 d.1 nq.1 ne.1 qe end)

-- The writes of an unlinking touch `before`, `after` and `e` only.
abbrev pub unlink_next : (ℕ → ℕ) → (e before after : ℕ) → ℕ → ℕ
unlink_next next e before after = update (update next before after) e 0

abbrev pub unlink_prev : (ℕ → ℕ) → (e before after : ℕ) → ℕ → ℕ
unlink_prev prev e before after = update (update prev after before) e 0

untouched :
    (next prev : ℕ → ℕ) (e before after : ℕ) (xs : List ℕ)
    → NotIn e xs
    → NotIn before xs
    → NotIn after xs
    → All
        (λ c.
          (unlink_next next e before after c ≡ next c)
          × (unlink_prev prev e before after c ≡ prev c))
        xs
untouched next prev e before after [] ne nb na = tt
untouched next prev e before after (x ∷ xs) ne nb na =
    ((ground arith, ground arith), untouched next prev e before after xs ne.1 nb.1 na.1)

-- Unlinking the first entry behind `a`.
unlink_first :
    (next prev : ℕ → ℕ) (a e : ℕ) (zs : List ℕ) (b n : ℕ)
    → Chain next prev a (e ∷ zs) b
    → NotIn a (e ∷ zs)
    → NotIn e zs
    → NotIn b zs
    → Distinct zs
    → b ≢ e
    → n ≡ first zs b
    → Chain (unlink_next next e a n) (unlink_prev prev e a n) a zs b
unlink_first next prev a e [] b n c na ne nb d be eq = ground arith
unlink_first next prev a e (z ∷ zs) b n c na ne nb d be eq = (
  ground arith,
  ground arith,
  frame next prev _ _ z zs b (ground arith) (ground arith)
      (untouched next prev e a n zs ne.1 na.1.1 (rw eq d.0)) c.2.2,
)

-- So is the first one, unless there is none.
pub first-ne : (y b : ℕ) (zs : List ℕ) → NotIn y zs → b ≢ y → first zs b ≢ y
first-ne y b [] h k = k
first-ne y b (z ∷ zs) h k = h.0

Distinct-drop : (ys zs : List ℕ) → Distinct (ys ++ zs) → Distinct zs
Distinct-drop [] zs d = d
Distinct-drop (y ∷ ys) zs d = Distinct-drop ys zs d.1

-- The links after an entry `e`, with the entries `ys` before it and `zs` behind it, is taken out.
pub unlink-Chain :
    (next prev : ℕ → ℕ) (a e : ℕ) (ys zs : List ℕ) (b l n : ℕ)
    → Chain next prev a (ys ++ e ∷ zs) b
    → NotIn a (ys ++ e ∷ zs)
    → NotIn b (ys ++ e ∷ zs)
    → Distinct (ys ++ e ∷ zs)
    → b ≢ e
    → l ≡ last a ys
    → n ≡ first zs b
    → Chain (unlink_next next e l n) (unlink_prev prev e l n) a (ys ++ zs) b
unlink-Chain next prev a e [] zs b l n c na nb d be el en =
    rw el (unlink_first next prev a e zs b n c na d.0 nb.1 d.1 (λ q. be q) en)
unlink-Chain next prev a e (y ∷ ys) zs b l n c na nb d be el en =
    let behind : NotIn y (e ∷ zs) = All-right (λ x. x ≢ y) ys (e ∷ zs) d.0 in
    let la : last y ys ≢ a = last-NotIn a y ys na.0 (All-left (λ x. x ≢ a) ys (e ∷ zs) na.1) in
    let fy : first zs b ≢ y = first-ne y b zs behind.1 (λ q. nb.0 (sym q)) in
    let ea : NotIn a (e ∷ zs) = All-right (λ x. x ≢ a) ys (e ∷ zs) na.1 in
    (ground arith, ground arith, unlink-Chain next prev y e ys zs b l n c.2 d.0 nb.1 d.1 be el en)

-- Where the chain puts an entry: behind the last before it, and before the first behind it.
pub Chain-at :
    (next prev : ℕ → ℕ) (a e : ℕ) (ys zs : List ℕ) (b : ℕ)
    → Chain next prev a (ys ++ e ∷ zs) b
    → (prev e ≡ last a ys) × (next e ≡ first zs b)
Chain-at next prev a e [] zs b c = (c.1, Chain-first next prev e zs b c.2)
Chain-at next prev a e (y ∷ ys) zs b c = Chain-at next prev y e ys zs b c.2
