-- ===== src/Boot/Made.antt =====
-- ProcessCreateIdle and ProcessCreateInit of src/process.c, called by KernelStart of src/kernelstart.c:
-- what they leave of the kernel's state.
use yalnix.Base.{
  ℕ, ◌<◌, ◌≡◌, refl, ◌≢◌, inl, inr, Bool, true, false, not, ◌&&◌, Option, none, some, [], arith,
  ◌==◌, ltb, leb, is_neg, to_ℕ, ==_refl, update, Bool-cases, Option-cases, ◌>>=◌,
}
use yalnix.Hardware.{Hardware, stack_pages}
use yalnix.Memory.{Memory, frame_alloc, memory_alloc_page_table}
use yalnix.State.{Kernel, free}
use yalnix.Ipc.{ipc_init, ipc_max_objects}
use yalnix.Tty.{tty_init}
use yalnix.Fork.{
  place, process_alloc_kernel_stack, process_register, is_error, stack_given, alloc_stack,
}
use yalnix.Boot.{
  Machine, process_init, with_user_stack, with_kernel_stack, process_create_idle,
  process_create_init, enable,
}

-- What holds of a result, if there is one.
abbrev pub OrPanic {ℓ} : {A : Type ℓ} → (A → Type 0) → Option A → Type 0
OrPanic P none = Unit
OrPanic P (some a) = P a

pub bind-OrPanic {ℓ κ} :
    {A : Type ℓ} {B : Type κ} (P : A → Type 0) (Q : B → Type 0) (o : Option A) (next : A → Option B)
    → OrPanic P o
    → ((a : A) → P a → OrPanic Q (next a))
    → OrPanic Q (o >>= next)
bind-OrPanic P Q none next p q = tt
bind-OrPanic P Q (some a) next p q = q a p

pub anything {ℓ} : {A : Type ℓ} (o : Option A) → OrPanic (λ _. Unit) o
anything none = tt
anything (some a) = tt

module _ ⦃hw : Hardware⦄ (b : Machine) where
  -- Nothing waits for anything yet, and the idle process is to run DoIdle.
  pub record Quiet (k : Kernel) : Type 0 where
    pub ready : k.ready_queue ≡ []
    pub objects : (i : ℕ) → i < ipc_max_objects → k.objects i ≡ free
    pub loop : (k.procs b.idle).user_context.pc ≡ b.do_idle
    pub idle_live : b.idle ≢ 0

  pub record AtIdle (k : Kernel) : Type 0 where
    pub quiet : Quiet k
    pub current : k.current ≡ b.idle
    pub idle : k.idle ≡ b.idle

  -- The kernel before ProcessCreateIdle.
  pub record Fresh (k : Kernel) : Type 0 where
    pub ready : k.ready_queue ≡ []
    pub objects : (i : ℕ) → i < ipc_max_objects → k.objects i ≡ free

  abbrev pub set_up : Kernel → Memory → Kernel
  set_up k m = tty_init (ipc_init (record (process_init k) { memory = m }))

  pub fresh : (k : Kernel) (m : Memory) → Fresh (set_up k m)
  unfolding tty_init ipc_init process_init
  fresh k m = record {
    ready = refl;
    objects = λ i low. let a : leb ipc_max_objects i ≡ false = ground arith in rw a refl;
  }

  -- ProcessRegister changes at most the process table.
  register-form :
      (p : ℕ) (k : Kernel) → (f : ℕ → ℕ) × (process_register p k ≡ record k { process_table = f })
  unfolding process_register
  register-form p k =
      elim (Bool-cases (not (is_neg (k.procs p).pid) && ltb (to_ℕ (k.procs p).pid) hw.max_procs)) [
        | inl fits ↦ rw fits (update k.process_table (to_ℕ (k.procs p).pid) p, refl)
        | inr over ↦ rw over (k.process_table, refl)
      ]

  register-Quiet : (p : ℕ) (k : Kernel) → Quiet k → Quiet (process_register p k)
  register-Quiet p k q =
      rw (register-form p k).1
        (record { ready = q.ready; objects = q.objects; loop = q.loop; idle_live = q.idle_live })

  stack-Quiet :
      (k : Kernel) (r : Option ℕ × Memory)
      → Fresh k
      → b.idle ≢ 0
      → OrPanic Quiet (with_user_stack b.idle b.idle_pt b.idle_pid b.do_idle b.uctxt k r)
  stack-Quiet k (none, m) f live = tt
  stack-Quiet k (some pfn, m) f live = elim (Bool-cases (is_error b.idle_pid)) [
    | inl bad ↦ rw bad tt
    | inr good ↦ rw good (
        register-Quiet b.idle _ (record {
          ready = f.ready;
          objects = f.objects;
          loop = rw (==_refl b.idle) refl;
          idle_live = live;
        }))
  ]

  pub idle-Quiet :
      (k : Kernel)
      → Fresh k
      → OrPanic Quiet (process_create_idle b.idle b.idle_pt b.idle_pid b.do_idle b.uctxt k)
  unfolding process_create_idle
  idle-Quiet k f = elim (Bool-cases (b.idle == 0)) [
    | inl null ↦ rw null tt
    | inr live ↦ rw live (elim (Option-cases (memory_alloc_page_table b.idle_pt k.memory)) [
      | inl full ↦ rw full tt
      | inr (m, ok) ↦ rw ok (
          stack-Quiet (place b.idle b.idle_pt m k) (frame_alloc m)
            (record { ready = f.ready; objects = f.objects }) (ground (arith, live)))
    ])
  ]

  pub enable-AtIdle : (k : Kernel) → Quiet k → AtIdle (enable b.idle k)
  enable-AtIdle k q = record {
    quiet = record { ready = q.ready; objects = q.objects; loop = q.loop; idle_live = q.idle_live };
    current = refl;
    idle = refl;
  }

  module _ (other : b.init ≢ b.idle) where
    apart : (b.init == b.idle) ≡ false
    apart = ground (arith, other)

    register-AtIdle : (p : ℕ) (k : Kernel) → AtIdle k → AtIdle (process_register p k)
    register-AtIdle p k a = rw (register-form p k).1 (record {
      quiet = record {
        ready = a.quiet.ready;
        objects = a.quiet.objects;
        loop = a.quiet.loop;
        idle_live = a.quiet.idle_live;
      };
      current = a.current;
      idle = a.idle;
    })

    stack-AtIdle :
        (m : Memory) (k : Kernel) (r : Bool × (ℕ → ℕ) × Memory)
        → AtIdle k
        → b.init ≢ 0
        → OrPanic
            (λ k'. AtIdle k' × (b.init ≢ 0))
            (with_kernel_stack b.init b.init_pid b.uctxt
              (stack_given b.init (place b.init b.init_pt m k) r))
    stack-AtIdle m k (false, pfns, n) a live = tt
    stack-AtIdle m k (true, pfns, n) a live = elim (Bool-cases (is_error b.init_pid)) [
      | inl bad ↦ rw bad tt
      | inr good ↦ rw good (
        register-AtIdle b.init _ (record {
          quiet = record {
            ready = a.quiet.ready;
            objects = a.quiet.objects;
            loop = rw apart a.quiet.loop;
            idle_live = a.quiet.idle_live;
          };
          current = a.current;
          idle = a.idle;
        }),
        live,
      )
    ]

    pub init-AtIdle :
        (k : Kernel)
        → AtIdle k
        → OrPanic
            (λ k'. AtIdle k' × (b.init ≢ 0))
            (process_create_init b.init b.init_pt b.init_pid b.uctxt k)
    unfolding process_create_init process_alloc_kernel_stack
    init-AtIdle k a = elim (Bool-cases (b.init == 0)) [
      | inl null ↦ rw null tt
      | inr live ↦ rw live (elim (Option-cases (memory_alloc_page_table b.init_pt k.memory)) [
        | inl full ↦ rw full tt
        | inr (m, ok) ↦ rw ok (
            stack-AtIdle m k
              (alloc_stack stack_pages 0
                ((place b.init b.init_pt m k).procs b.init).kernel_stack_pfns m)
              a (ground (arith, live)))
      ])
    ]
