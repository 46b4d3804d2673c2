-- ===== src/Life/Wait.antt =====
-- What SysWait returns, and what it does to the caller's children.
use yalnix.Base.{ℕ, ◌≡◌, ◌≢◌, ◌⊎◌, true, false, Option, none, some, List, [], ◌∷◌, ◌++◌, All}
use yalnix.Hardware.{Hardware}
use yalnix.State.{Kernel, ProcState, Resume, is_zombie, error}
use yalnix.Process.{process_schedule}
use yalnix.Ipc.{Outcome, returned, switched}
use yalnix.Life.{store_status}

abbrev IsLive : Kernel → List ℕ → Type 0
IsLive k = All (λ c. is_zombie (k.procs c).state ≡ false)

-- The first zombie of a list, or none.
abbrev Find : Kernel → List ℕ → Option ℕ → Type 0
Find k cs none = IsLive k cs
Find k cs (some c) =
    (ys : List ℕ) × (zs : List ℕ) × (cs ≡ ys ++ c ∷ zs)
    × IsLive k ys
    × (is_zombie (k.procs c).state ≡ true)

module _ ⦃hw : Hardware⦄ (ptr : ℕ) (k : Kernel) where
  -- The caller sleeps until a child exits: it is blocked and waits for a child when the scheduler is called, from
  -- where it goes on with SysWait; nothing else has changed by then.
  pub Sleeps : Kernel → Type 0
  Sleeps k' =
      (m : Kernel) × (k' ≡ process_schedule (Resume.in_wait ptr) m)
      × (m.procs k.current
          ≡ record (k.procs k.current) { waiting_for_child = true; state = ProcState.blocked })
      × ((q : ℕ) → q ≢ k.current → m.procs q ≡ k.procs q)
      × (m.current ≡ k.current)
      × (m.ready_queue ≡ k.ready_queue)

  -- What a call of SysWait gives: with no child an error, with live children only a wait, and
  -- otherwise the pid of the first that is a zombie, which is off the list then.
  pub Waited : Outcome × Kernel → Type 0
  Waited (o, k') =
      let cs = (k.procs k.current).children in
      ((cs ≡ []) × (o ≡ returned error) × (k' ≡ k))
      ⊎ ((cs ≢ []) × IsLive k cs × (o ≡ switched) × Sleeps k')
      ⊎ ((c : ℕ) × (ys : List ℕ) × (zs : List ℕ) × (cs ≡ ys ++ c ∷ zs)
          × IsLive k ys
          × (is_zombie (k.procs c).state ≡ true)
          × (o ≡ returned (k.procs c).pid)
          × ((k'.procs k.current).children ≡ ys ++ zs))

  -- The children of the process that calls are processes other than itself, and name it as their
  -- parent.
  abbrev pub IsFamily : Type 0
  IsFamily =
      All (λ c. (c ≢ 0) × (k.current ≢ c) × ((k.procs c).parent ≡ k.current))
        (k.procs k.current).children

  abbrev stored : ℕ → Kernel
  stored c = store_status ptr (k.procs c).exit_status k
