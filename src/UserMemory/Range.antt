-- ===== src/UserMemory/Range.antt =====
-- MapRange: every page of the range at a fresh frame, or as many as there are frames for.
use yalnix.Base.{
  ℕ, zero, suc, ◌+◌, ◌≤◌, ◌<◌, ◌≡◌, ap, ◌≢◌, inl, inr, Bool, true, false, none, some, arith, pos,
}
use yalnix.Hardware.{Hardware}
use yalnix.Memory.{Memory, frame_alloc, memory_map_page}
use yalnix.Memory.Frames.{Found, frame_alloc-Found, mark, frame_alloc-cases}
use yalnix.Memory.Short.{Short, Used, Used-refl, Used-mark, Used-map, Used-Short}
use yalnix.Memory.Isolation.{IsIsolated, mark-IsIsolated, mark-IsFree, map-IsIsolated}
use yalnix.Memory.Grow.Ledger.{Grown, Grown-refl, grow_page}
use yalnix.Memory.Grow.Rollback.{map-ok}
use yalnix.UserMemory.{map_range}

-- What mapping the pages `start` to `end` gives: all of them, or those below the page for which
-- there was no frame, every frame being in use then.
abbrev pub Mapped : (pt start end prot : ℕ) → Memory → Bool × Memory → Type 0
Mapped pt start end prot m (true, n) = Grown pt start end prot m n × IsIsolated n
Mapped pt start end prot m (false, n) =
    (stop : ℕ) × (start ≤ stop)
    × (stop < end)
    × Grown pt start stop prot m n
    × ((p : ℕ) → p < n.frame_count → n.allocated p ≡ true)
    × IsIsolated n

-- How many frames a range of `count` pages takes.
abbrev pub Counted : (count : ℕ) → Memory → Bool × Memory → Type 0
Counted count m (true, n) = Used count m n
Counted count m (false, n) = Short count m

all_used :
    (n : Memory) → frame_alloc n ≡ (none, n) → (p : ℕ) → p < n.frame_count → n.allocated p ≡ true
all_used n full p lt =
    let none_left : Found n.allocated 0 n.frame_count none =
      rw (ap (λ r. r.0) full) at (frame_alloc-Found n).0 in
    none_left p (omega arith) lt

module _ ⦃hw : Hardware⦄ (pt start prot : ℕ) (m : Memory) (nz : pt ≢ 0) where
  range-more :
      (left i f : ℕ) (n : Memory)
      → frame_alloc n ≡ (some f, mark n f)
      → i < hw.max_pt_len
      → map_range pt prot (suc left) i n
        ≡ map_range pt prot left (i + 1) (memory_map_page pt (pos i) (pos f) prot (mark n f)).1
  unfolding map_range
  range-more left i f n got lt = rw (got, map_range) (rw (got, map-ok nz i f prot (mark n f) lt))

  range-full :
      (left i : ℕ) (n : Memory)
      → frame_alloc n ≡ (none, n)
      → map_range pt prot (suc left) i n ≡ (false, n)
  unfolding map_range
  range-full left i n full = rw (full, map_range) (rw full)

  range-Mapped :
      (left i end : ℕ) (n : Memory)
      → i + left ≡ end
      → start ≤ i
      → end ≤ hw.max_pt_len
      → ((j : ℕ) → start ≤ j → j < end → (m.tables pt j).valid ≡ false)
      → IsIsolated n
      → Grown pt start i prot m n
      → Mapped pt start end prot m (map_range pt prot left i n)
  unfolding map_range
  range-Mapped zero i end n e le fits empty v g =
      let same : i ≡ end = omega arith in (rw same at g, v)
  range-Mapped (suc left) i end n e le fits empty v g = elim (frame_alloc-cases n) [
    | inl full ↦ rw (range-full left i n full) (i, le, omega arith, g, all_used n full, v)
    | inr (f, got, lt, free) ↦
        let next = grow_page nz (omega arith) le f (empty i le (omega arith)) free g in
        let step : suc i ≡ i + 1 = omega arith in
        rw (range-more left i f n got (omega arith)) (
          range-Mapped left (i + 1) end _ (omega arith) (omega arith) fits empty
            (map-IsIsolated pt (pos i) f prot (mark-IsIsolated f v) (mark-IsFree f v lt free))
            (rw step at next))
  ]

  -- It takes a frame for each page, or stops where fewer are free.
  range-Counted :
      (left i done total : ℕ) (n : Memory)
      → i + left ≤ hw.max_pt_len
      → done + left ≡ total
      → Used done m n
      → Counted total m (map_range pt prot left i n)
  unfolding map_range
  range-Counted zero i done total n fits e u = let same : done ≡ total = omega arith in rw same at u
  range-Counted (suc left) i done total n fits e u = elim (frame_alloc-cases n) [
    | inl full ↦ rw (range-full left i n full) (Used-Short total (omega arith) full u)
    | inr (f, got, lt, free) ↦ rw (range-more left i f n got (omega arith)) (
        range-Counted left (i + 1) (done + 1) total _ (omega arith) (omega arith)
          (Used-map pt i f prot (Used-mark f u)))
  ]

  pub map_range-Counted :
      (count : ℕ)
      → start + count ≤ hw.max_pt_len
      → Counted count m (map_range pt prot count start m)
  map_range-Counted count fits =
      range-Counted count start 0 count m fits (omega arith) (Used-refl m)

  -- MapRange over unmapped pages of a table: it maps all of them at free frames, or stops for want of
  -- a frame with those below mapped, and all frames in use. It changes no other entry, and keeps frames
  -- unshared.
  pub map_range-Mapped :
      (count : ℕ)
      → start + count ≤ hw.max_pt_len
      → ((j : ℕ) → start ≤ j → j < start + count → (m.tables pt j).valid ≡ false)
      → IsIsolated m
      → Mapped pt start (start + count) prot m (map_range pt prot count start m)
  map_range-Mapped count fits empty v =
      range-Mapped count start (start + count) m (omega arith) (omega arith) fits empty v
        (Grown-refl pt start prot m)
