-- ===== src/Process/Expired.antt =====
-- ProcessWakeDelayed of src/process.c: the processes whose delay has run out go behind the ready queue, in the order of the
-- process table.
use yalnix.Base.{
  ℕ, zero, suc, ◌+◌, ◌<◌, ◌≡◌, refl, sym, ap, ◌∙◌, ◌≢◌, ◌⊎◌, inl, inr, Bool, true, false, not, ◌&&◌,
  List, [], ◌∷◌, ◌++◌, arith, ◌==◌, leb, ltb, if◌then◌else◌, Bool-cases, append-nil,
}
use yalnix.Hardware.{Hardware}
use yalnix.State.{
  Kernel, Pcb, ProcState, modify, modify-at, modify-off, is_zombie, is_running, is_blocked,
}
use yalnix.Queue.Fifo.{has}
use yalnix.Process.{process_make_ready, is_due, wake_at}
use yalnix.Process.Ready.{make_ready-Made}
use yalnix.Process.Schedule.{AllReady, IsReady, modify-IsReady, process_make_ready-IsReady}

-- A process that is blocked with a delay that has run out.
abbrev pub expired : Kernel → ℕ → Bool
expired k p =
    not (p == 0)
    && (is_blocked (k.procs p).state
        && (ltb 0 (k.procs p).delay_until && leb (k.procs p).delay_until k.clock_ticks))

-- Such processes among the `left` entries of the process table from `i` on.
unfoldable pub expired_from : (left i : ℕ) → Kernel → List ℕ
expired_from zero i k = []
expired_from (suc left) i k =
    (if expired k (k.process_table i) then k.process_table i ∷ [] else [])
    ++ expired_from left (i + 1) k

-- No process stands twice in the process table.
unfoldable pub IsTable : ⦃hw : Hardware⦄ → Kernel → Type 0
IsTable ⦃hw = hw⦄ k =
    (i j : ℕ)
    → i < j
    → j < hw.max_procs
    → k.process_table j ≢ 0
    → k.process_table i ≢ k.process_table j

-- A process whose state is not READY is not in the queue.
not_queued :
    (p : ℕ) (f : ℕ → Pcb) (q : List ℕ)
    → (is_blocked (f p).state ≡ true) ⊎ (is_running (f p).state ≡ true)
    → AllReady f q
    → has p q ≡ false
not_queued p f [] busy all = refl
not_queued p f (x ∷ q) busy all = elim (Bool-cases (x == p)) [
  | inl here ↦ let e : x ≡ p = ground arith in absurd (off (f p) busy (rw e at all.0))
  | inr other ↦ rw other (not_queued p f q busy all.1)
]
  where
    off :
        (b : Pcb)
        → (is_blocked b.state ≡ true) ⊎ (is_running b.state ≡ true)
        → b.state ≢ ProcState.ready
    off b (inl s) e = let w : is_blocked ProcState.ready ≡ true = rw e at s in cc
    off b (inr s) e = let w : is_running ProcState.ready ≡ true = rw e at s in cc

blocked_rests : (s : ProcState) → is_blocked s ≡ true → is_running s ≡ false
blocked_rests ProcState.empty h = refl
blocked_rests ProcState.ready h = refl
blocked_rests ProcState.running h = absurd (ground (arith, h))
blocked_rests ProcState.blocked h = refl
blocked_rests ProcState.zombie h = refl

alive : (s : ProcState) → (is_blocked s ≡ true) ⊎ (is_running s ≡ true) → is_zombie s ≡ false
alive ProcState.empty h = refl
alive ProcState.ready h = refl
alive ProcState.running h = refl
alive ProcState.blocked h = refl
alive ProcState.zombie (inl h) = absurd (ground (arith, h))
alive ProcState.zombie (inr h) = absurd (ground (arith, h))

make_ready-clock : (p : ℕ) (k : Kernel) → (process_make_ready p k).clock_ticks ≡ k.clock_ticks
unfolding process_make_ready
make_ready-clock p k = ground arith

make_ready-idle : (p : ℕ) (k : Kernel) → (process_make_ready p k).idle ≡ k.idle
unfolding process_make_ready
make_ready-idle p k = ground arith

-- ProcessMakeReady of a process that is blocked or runs puts it behind the queue.
pub make_ready-last :
    (p : ℕ) (k : Kernel)
    → p ≢ 0
    → p ≢ k.idle
    → (is_blocked (k.procs p).state ≡ true) ⊎ (is_running (k.procs p).state ≡ true)
    → AllReady k.procs k.ready_queue
    → (process_make_ready p k).ready_queue ≡ k.ready_queue ++ p ∷ []
unfolding process_make_ready
make_ready-last p k nz user busy all =
    let a : (p == 0) ≡ false = ground arith in
    let b : (p == k.idle) ≡ false = ground arith in
    let c : is_zombie (k.procs p).state ≡ false = alive (k.procs p).state busy in
    rw (a, b, c) (rw (not_queued p k.procs k.ready_queue busy all) refl)

module _ ⦃hw : Hardware⦄ (k : Kernel) (table : IsTable k)
    (idle_runs : is_blocked (k.procs k.idle).state ≡ false) where
  -- The first `i` entries of the process table were looked at, from `k` to `m`: a process that has not
  -- expired, or is not among them, is as it was.
  pub record Seen (i : ℕ) (m : Kernel) : Type 0 where
    pub same_table : m.process_table ≡ k.process_table
    pub clock : m.clock_ticks ≡ k.clock_ticks
    pub idle : m.idle ≡ k.idle
    pub current : m.current ≡ k.current
    pub kept :
        (p : ℕ)
        → (expired k p ≡ false) ⊎ ((j : ℕ) → j < i → k.process_table j ≢ p)
        → m.procs p ≡ k.procs p
    pub runs : (p : ℕ) → is_running (m.procs p).state ≡ is_running (k.procs p).state

  abbrev pub Step : (i : ℕ) → List ℕ → Kernel → Kernel → Type 0
  Step i new m n = Seen i n × (n.ready_queue ≡ m.ready_queue ++ new) × IsReady n

  abbrev entry : ℕ → ℕ
  entry i = k.process_table i

  -- The entry that is looked at next is as it was.
  entry_kept :
      (i : ℕ) (m : Kernel) → i < hw.max_procs → Seen i m → m.procs (entry i) ≡ k.procs (entry i)
  unfolding IsTable
  entry_kept i m lt s = elim (Bool-cases (expired k (entry i))) [
    | inl t ↦ s.kept (entry i) (inr (λ j a. table j i a lt (ground (arith, t))))
    | inr f ↦ s.kept (entry i) (inl f)
  ]

  entry_due :
      (i : ℕ) (m : Kernel)
      → i < hw.max_procs
      → Seen i m
      → is_due (m.process_table i) m ≡ expired k (entry i)
  entry_due i m lt s =
      let same = entry_kept i m lt s in rw (s.same_table, same, s.clock) (ground arith)

  abbrev undelay : Pcb → Pcb
  undelay b = record b { delay_until = 0 }

  -- An entry that has expired.
  woken :
      (i : ℕ) (m : Kernel)
      → i < hw.max_procs
      → expired k (entry i) ≡ true
      → Seen i m
      → IsReady m
      → Step (i + 1) (entry i ∷ []) m (process_make_ready (entry i) (modify (entry i) undelay m))
  woken i m lt t s v =
      let p = entry i in
      let same = entry_kept i m lt s in
      let n = modify p undelay m in
      let blocked : is_blocked (k.procs p).state ≡ true = ground (arith, t) in
      let here : n.procs p ≡ undelay (k.procs p) = modify-at p undelay m ∙ ap undelay same in
      let still : is_blocked (n.procs p).state ≡ true =
        ap (λ b. is_blocked b.state) here ∙ blocked in
      let nz : p ≢ 0 = ground (arith, t) in
      let user : p ≢ m.idle = λ e.
        let f : is_blocked (k.procs p).state ≡ false = rw (e ∙ s.idle) idle_runs in
        cc (f, blocked) in
      let w = modify-IsReady p undelay refl v in
      let made = make_ready-Made p n nz user (alive (n.procs p).state (inl still)) in
      (
        record {
          same_table = made.table ∙ s.same_table;
          clock = make_ready-clock p n ∙ s.clock;
          idle = make_ready-idle p n ∙ s.idle;
          current = made.current ∙ s.current;
          kept = λ q c.
              let off = other q t c in
              made.other q off ∙ modify-off p undelay m q off ∙ s.kept q (earlier q c);
          runs = λ q. elim (Bool-cases (q == p)) [
            | inl e ↦
                let at : q ≡ p = ground arith in
                rw at (
                  ap (λ b. is_running b.state) made.self
                  ∙ sym (blocked_rests (k.procs p).state blocked))
            | inr e ↦
                let off : q ≢ p = ground arith in
                ap (λ b. is_running b.state) (made.other q off ∙ modify-off p undelay m q off)
                ∙ s.runs q
          ];
        },
        make_ready-last p n nz user (inl still) w.states,
        process_make_ready-IsReady p w,
      )
    where
      earlier :
          (q : ℕ)
          → (expired k q ≡ false) ⊎ ((j : ℕ) → j < i + 1 → entry j ≢ q)
          → (expired k q ≡ false) ⊎ ((j : ℕ) → j < i → entry j ≢ q)
      earlier q (inl f) = inl f
      earlier q (inr f) = inr (λ j a. f j (omega arith))

      other :
          (q : ℕ)
          → expired k (entry i) ≡ true
          → (expired k q ≡ false) ⊎ ((j : ℕ) → j < i + 1 → entry j ≢ q)
          → q ≢ entry i
      other q t (inl f) e = let g : expired k (entry i) ≡ false = rw (sym e) f in cc (g, t)
      other q t (inr f) e = f i (omega arith) (sym e)

  wakes :
      (i : ℕ) (m : Kernel)
      → is_due (m.process_table i) m ≡ true
      → m.process_table i ≡ entry i
      → wake_at i m ≡ process_make_ready (entry i) (modify (entry i) undelay m)
  unfolding wake_at
  wakes i m d e = rw d (ap (λ p. process_make_ready p (modify p undelay m)) e)

  passes : (i : ℕ) (m : Kernel) → is_due (m.process_table i) m ≡ false → wake_at i m ≡ m
  unfolding wake_at
  passes i m d = rw d refl

  pub step :
      (i : ℕ) (m : Kernel)
      → i < hw.max_procs
      → Seen i m
      → IsReady m
      → Step (i + 1) (if expired k (entry i) then entry i ∷ [] else []) m (wake_at i m)
  step i m lt s v = elim (Bool-cases (expired k (entry i))) [
    | inl t ↦
        rw (wakes i m (entry_due i m lt s ∙ t) (ap (λ f. f i) s.same_table), t) (woken i m lt t s v)
    | inr f ↦
        rw (passes i m (entry_due i m lt s ∙ f), f)
          (
            record {
              same_table = s.same_table;
              clock = s.clock;
              idle = s.idle;
              current = s.current;
              kept = λ q c.
                  s.kept q (elim c [ inl g ↦ inl g | inr g ↦ inr (λ j a. g j (omega arith)) ]);
              runs = s.runs;
            },
            sym (append-nil m.ready_queue),
            v,
          )
  ]
