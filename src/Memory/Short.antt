-- ===== src/Memory/Short.antt =====
-- What it means that FrameAlloc (src/memory.c) fails: there are fewer free frames than are needed.
use yalnix.Base.{
  ℕ, ◌+◌, ◌-◌, ◌<◌, ◌≡◌, refl, ◌∙◌, ◌≢◌, ◌⊎◌, inl, inr, true, false, none, arith, pos, update, ltb,
  if◌then◌else◌,
}
use yalnix.Hardware.{Hardware}
use yalnix.Memory.{Memory, frame_alloc, memory_map_page}
use yalnix.Memory.Frames.{Found, frame_alloc-Found, mark}

-- `p` is one of the first `n` values of `g`.
abbrev pub Among : (n : ℕ) → (ℕ → ℕ) → ℕ → Type 0
Among n g p = (j : ℕ) × (j < n) × (g j ≡ p)

-- Fewer than `need` frames are free: they are all named by a list that is shorter.
pub record Short (need : ℕ) (m : Memory) : Type 0 where
  pub done : ℕ
  pub few : done < need
  pub taken : ℕ → ℕ
  pub every : (p : ℕ) → p < m.frame_count → m.allocated p ≡ false → Among done taken p

-- From `m` to `n` no more than `done` of the free frames were taken.
pub record Used (done : ℕ) (m n : Memory) : Type 0 where
  pub taken : ℕ → ℕ
  pub count : n.frame_count ≡ m.frame_count
  pub every :
      (p : ℕ)
      → p < m.frame_count
      → m.allocated p ≡ false
      → (n.allocated p ≡ false) ⊎ Among done taken p

pub Used-refl : (m : Memory) → Used 0 m m
Used-refl m = record { taken = λ j. 0; count = refl; every = λ p lt free. inl free }

pub Used-mark : {done : ℕ} {m n : Memory} (f : ℕ) → Used done m n → Used (done + 1) m (mark n f)
Used-mark {done} {m} {n} f u = record {
  taken = update u.taken done f;
  count = u.count;
  every = λ p lt free. elim (u.every p lt free) [
    | inl left ↦ elim (same p) [
      | inl e ↦ inr (done, omega arith, ground (arith, e))
      | inr other ↦ inl (ground (arith, left, other))
    ]
    | inr (j, below, e) ↦ inr (j, omega arith, ground (arith, below, e))
  ];
}
  where
    same : (p : ℕ) → (f ≡ p) ⊎ (f ≢ p)
    same p = omega arith

pub Used-same :
    {done : ℕ} {m n o : Memory}
    → o.frame_count ≡ n.frame_count
    → ((p : ℕ) → o.allocated p ≡ n.allocated p)
    → Used done m n
    → Used done m o
Used-same e f u = record {
  taken = u.taken;
  count = e ∙ u.count;
  every = λ p lt free. elim (u.every p lt free) [ inl left ↦ inl (f p ∙ left) | inr a ↦ inr a ];
}

module _ ⦃hw : Hardware⦄ where
  pub Used-map :
      {done : ℕ} {m n : Memory} (pt i f prot : ℕ)
      → Used done m n
      → Used done m (memory_map_page pt (pos i) (pos f) prot n).1
  unfolding memory_map_page
  Used-map pt i f prot u = Used-same (ground arith) (λ p. ground arith) u

-- Where FrameAlloc fails, every frame is in use.
pub frame_alloc-full :
    (m : Memory) → frame_alloc m ≡ (none, m) → (p : ℕ) → p < m.frame_count → m.allocated p ≡ true
frame_alloc-full m full p lt =
    let found : Found m.allocated 0 m.frame_count none = rw full at (frame_alloc-Found m).0 in
    found p (omega arith) lt

pub Used-Short :
    {done : ℕ} (need : ℕ) {m n : Memory}
    → done < need
    → frame_alloc n ≡ (none, n)
    → Used done m n
    → Short need m
Used-Short {done} need {m} {n} lt full u = record {
  done = done;
  few = lt;
  taken = u.taken;
  every = λ p inside free. elim (u.every p inside free) [
    | inl left ↦
        let used = frame_alloc-full n full p (rw u.count inside) in
        absurd (ground (arith, used, left))
    | inr a ↦ a
  ];
}

-- First at most `a` frames were taken, and then fewer than `need` were free.
pub Short-after : {a need : ℕ} {m n : Memory} → Used a m n → Short need n → Short (a + need) m
Short-after {a} {need} {m} {n} u s = record {
  done = a + s.done;
  few = let f = s.few in omega (arith, f);
  taken = λ j. if ltb j a then u.taken j else s.taken (j - a);
  every = λ p inside free. elim (u.every p inside free) [
    | inl left ↦
        let (j, lt, e) = s.every p (rw u.count inside) left in
        let back : a + j - a ≡ j = omega arith in
        let past : ltb (a + j) a ≡ false = ground arith in
        (a + j, omega (arith, lt), rw past (rw back e))
    | inr (j, lt, e) ↦
        let before : ltb j a ≡ true = ground (arith, lt) in
        (j, let f = lt in omega (arith, f), rw before e)
  ];
}

pub Short-more : {need more : ℕ} {m : Memory} → Short need m → need < more + 1 → Short more m
Short-more s lt = record {
  done = s.done;
  few = let f = s.few in omega (arith, f, lt);
  taken = s.taken;
  every = s.every;
}
