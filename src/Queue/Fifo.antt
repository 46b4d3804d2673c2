-- ===== src/Queue/Fifo.antt =====
-- What src/Queue.c promises: a queue is the list of its entries, oldest first. The kernel's other
-- parts are modelled over these operations; Queue/Refine.antt proves that the linked ones do this.
use yalnix.Base.{
  ℕ, Bool, true, false, ◌||◌, Option, none, some, List, [], ◌∷◌, ◌++◌, ◌==◌, if◌then◌else◌,
}

-- Is the entry linked into the queue?
abbrev pub has : ℕ → List ℕ → Bool
has e [] = false
has e (x ∷ xs) = (x == e) || has e xs

abbrev pub is_empty : List ℕ → Bool
is_empty [] = true
is_empty (x ∷ xs) = false

abbrev pub push_back : List ℕ → ℕ → List ℕ
push_back xs e = xs ++ e ∷ []

abbrev pub pop_front : List ℕ → Option ℕ × List ℕ
pop_front [] = (none, [])
pop_front (x ∷ xs) = (some x, xs)

-- An entry that is not linked stays so.
abbrev pub remove : ℕ → List ℕ → List ℕ
remove e [] = []
remove e (x ∷ xs) = if x == e then xs else x ∷ remove e xs
