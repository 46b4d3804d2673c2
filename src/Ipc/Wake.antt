-- ===== src/Ipc/Wake.antt =====
-- WakeOne and WakeAll of src/ipc.c: who is ready behind them.
use yalnix.Base.{ℕ, ◌≡◌, ◌≢◌, false, List, [], ◌∷◌, arith, ==_refl, All, All-mono}
use yalnix.State.{Kernel, is_zombie}
use yalnix.Process.{process_make_ready}
use yalnix.Process.Ready.{Awake, make_ready-Awake, keeps-Awake}
use yalnix.Ipc.{wake, wake_all}

-- A process that is not the idle one and has not exited.
abbrev pub CanRun : Kernel → ℕ → Type 0
CanRun k p = (p ≢ 0) × (p ≢ k.idle) × (is_zombie (k.procs p).state ≡ false)

abbrev pub AllCanRun : List ℕ → Kernel → Type 0
AllCanRun q k = All (CanRun k) q

abbrev pub AllAwake : List ℕ → Kernel → Type 0
AllAwake q k = All (λ p. Awake p k) q

pub wake-Awake : (p : ℕ) (k : Kernel) → CanRun k p → Awake p (wake p k)
unfolding wake
wake-Awake p k c = make_ready-Awake p _ c.0 c.1 (rw (==_refl p) c.2)

-- A process that is ready, and one that can run, stay so when another is woken.
wake-keeps : (p x : ℕ) (k : Kernel) → Awake p k → Awake p (wake x k)
unfolding wake
wake-keeps p x k a = keeps-Awake p x _ (ground (arith, a.0), a.1)

wake-CanRun : (p x : ℕ) (k : Kernel) → CanRun k p → CanRun (wake x k) p
unfolding wake process_make_ready
wake-CanRun p x k c = ground (arith, c.0, c.1, c.2)

wake_all-keeps : (q : List ℕ) (p : ℕ) (k : Kernel) → Awake p k → Awake p (wake_all q k)
unfolding wake_all
wake_all-keeps [] p k a = a
wake_all-keeps (x ∷ q) p k a = wake_all-keeps q p (wake x k) (wake-keeps p x k a)

-- WakeAll makes every process of the queue ready.
pub wake_all-Awake : (q : List ℕ) (k : Kernel) → AllCanRun q k → AllAwake q (wake_all q k)
unfolding wake_all
wake_all-Awake [] k c = tt
wake_all-Awake (p ∷ q) k c = (
  wake_all-keeps q p (wake p k) (wake-Awake p k c.0),
  wake_all-Awake q (wake p k)
      (All-mono (CanRun k) (CanRun (wake p k)) q (λ x h. wake-CanRun x p k h) c.1),
)
