-- ===== src/Memory/Grow/Rollback.antt =====
-- A growth that fails is taken back whole; one that succeeds has mapped every page asked for.
use yalnix.Base.{
  ℕ, zero, suc, ◌+◌, ◌-◌, ◌≤◌, ◌<◌, ◌≡◌, ◌≢◌, inl, inr, Bool, true, false, none, some, arith, pos,
}
use yalnix.Hardware.{Hardware, prot_rw}
use yalnix.Memory.{Memory, frame_alloc, memory_map_page, release_page}
use yalnix.Memory.Frames.{mark, frame_alloc-cases}
use yalnix.Memory.Short.{Short, Used, Used-mark, Used-map, Used-Short}
use yalnix.Memory.Isolation.{
  IsIsolated, mark-IsIsolated, mark-IsFree, map-IsIsolated, release-IsIsolated,
}
use yalnix.Memory.Grow.{rollback, grow}
use yalnix.Memory.Grow.Ledger.{Grown, grow_page, ungrow_page}

-- Where the loop ends, from `m` and for the pages `old` to `total` of the table `pt`: it fails only where
-- fewer frames are free than there are pages.
abbrev pub Outcome : ⦃hw : Hardware⦄ (pt old total : ℕ) → Memory → Bool × Memory → Type 0
Outcome pt old total m (true, n) = Grown pt old total prot_rw m n × IsIsolated n
Outcome pt old total m (false, n) =
    Grown pt old old prot_rw m n × IsIsolated n × Short (total - old) m

module _ ⦃hw : Hardware⦄ {pt : ℕ} (nz : pt ≢ 0) where
  pub map-ok :
      (i f prot : ℕ) (n : Memory)
      → i < hw.max_pt_len
      → (memory_map_page pt (pos i) (pos f) prot n).0 ≡ true
  unfolding memory_map_page
  map-ok i f prot n lt = ground arith

module _ ⦃hw : Hardware⦄ (pt old : ℕ) (m : Memory) (nz : pt ≢ 0) where
  -- The pages taken so far are given back, one by one from the top.
  rollback-Grown :
      (done : ℕ) (n : Memory)
      → old + done ≤ hw.max_pt_len
      → IsIsolated n
      → Grown pt old (old + done) prot_rw m n
      → Grown pt old old prot_rw m (rollback pt old done n) × IsIsolated (rollback pt old done n)
  unfolding rollback
  rollback-Grown zero n fits v g = let e : old + 0 ≡ old = omega arith in (rw e at g, v)
  rollback-Grown (suc k) n fits v g =
      let e : old + suc k ≡ suc (old + k) = omega arith in
      let g' = rw e at g in
      rollback-Grown k (release_page pt (old + k) n) (omega arith)
        (release-IsIsolated pt (old + k) nz (omega arith)
          (g'.mapped (old + k) (omega arith) (omega arith)).0 v)
        (ungrow_page nz (omega arith) (omega arith) v g')

  grow-full :
      (left done : ℕ) (n : Memory)
      → frame_alloc n ≡ (none, n)
      → grow pt old (suc left) done n ≡ (false, rollback pt old done n)
  unfolding grow
  grow-full left done n full = rw (full, grow) (rw full)

  grow-more :
      (left done f : ℕ) (n : Memory)
      → frame_alloc n ≡ (some f, mark n f)
      → old + done < hw.max_pt_len
      → grow pt old (suc left) done n
        ≡ grow pt old left
            (done + 1)
            (memory_map_page pt (pos (old + done)) (pos f) prot_rw (mark n f)).1
  unfolding grow
  grow-more left done f n got lt =
      rw (got, grow) (rw (got, map-ok nz (old + done) f prot_rw (mark n f) lt))

  pub grow-Outcome :
      (left done total : ℕ) (n : Memory)
      → old + done + left ≡ total
      → total ≤ hw.max_pt_len
      → ((j : ℕ) → old ≤ j → j < total → (m.tables pt j).valid ≡ false)
      → IsIsolated n
      → Grown pt old (old + done) prot_rw m n
      → Used done m n
      → Outcome pt old total m (grow pt old left done n)
  unfolding grow
  grow-Outcome zero done total n e fits empty v g u =
      let same : old + done ≡ total = omega arith in (rw same at g, v)
  grow-Outcome (suc left) done total n e fits empty v g u = elim (frame_alloc-cases n) [
    | inl full ↦ rw (grow-full left done n full) (
        let r = rollback-Grown done n (omega arith) v g in
        (r.0, r.1, Used-Short (total - old) (omega arith) full u))
    | inr (f, got, lt, free) ↦
        let step : suc (old + done) ≡ old + (done + 1) = omega arith in
        let next =
          grow_page nz (omega arith) (omega arith) f
            (empty (old + done) (omega arith) (omega arith)) free g in
        rw (grow-more left done f n got (omega arith)) (
          grow-Outcome left (done + 1) total _ (omega arith) fits empty
            (map-IsIsolated pt (pos (old + done)) f prot_rw (mark-IsIsolated f v)
              (mark-IsFree f v lt free))
            (rw step at next) (Used-map pt (old + done) f prot_rw (Used-mark f u)))
  ]
