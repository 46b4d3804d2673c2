-- ===== src/Dispatch/Missing.antt =====
-- SyscallDispatch (src/syscalls.c) for calls that name an IPC object (src/ipc.c) that there is not.
use yalnix.Base.{
  ℕ, ◌≡◌, refl, ap, ◌≢◌, ◌⊎◌, inl, inr, Bool, true, false, Option, none, some, ◌≤◌, leb,
  if◌then◌else◌, ℤ, pos, negsuc, arith, ◌==◌, to_ℕ, Bool-cases, Option-cases,
}
use yalnix.Hardware.{Hardware}
use yalnix.State.{Kernel, IpcObject, free, pipe, lock, cvar, modify, set_reg0, error}
use yalnix.Ipc.{
  returned, get_pipe, get_lock, get_cvar, as_pipe, as_lock, as_cvar, out_of_range, no_process,
}
use yalnix.Ipc.Pipe.{sys_pipe_read, sys_pipe_write, pipe_read_loop, bad_buffer}
use yalnix.Ipc.Lock.{sys_acquire, sys_release, lock_acquire}
use yalnix.Ipc.Cvar.{sys_cvar_signal, sys_cvar_broadcast, sys_cvar_wait, sys_reclaim}
use yalnix.Dispatch.{Call, World, sys_call, store_result, syscall_dispatch, trap_kernel}

abbrev pub is_some {ℓ} : {A : Type ℓ} → Option A → Bool
is_some none = false
is_some (some a) = true

-- An object that is in use.
abbrev pub as_used : IpcObject → Option IpcObject
as_used free = none
as_used o = some o

-- No object of a kind has this number: it is negative, 128 or more, or another object, or none, has it.
abbrev pub NoObject {ℓ} : {A : Type ℓ} (as_kind : IpcObject → Option A) → ℤ → Kernel → Type 0
NoObject as_kind (negsuc n) k = Unit {0}
NoObject as_kind (pos n) k = (128 ≤ n) ⊎ (is_some (as_kind (k.objects n)) ≡ false)

-- The call `c` with the registers `r` names an object that is not there, or is of another type.
unfoldable pub Missing : Call → (r : ℕ → ℤ) → Kernel → Type 0
Missing Call.pipe_read r k = NoObject as_pipe (r 0) k × (r 2 ≢ pos 0)
Missing Call.pipe_write r k = NoObject as_pipe (r 0) k × (r 2 ≢ pos 0)
Missing Call.acquire r k = NoObject as_lock (r 0) k
Missing Call.release r k = NoObject as_lock (r 0) k
Missing Call.cvar_signal r k = NoObject as_cvar (r 0) k
Missing Call.cvar_broadcast r k = NoObject as_cvar (r 0) k
Missing Call.cvar_wait r k = NoObject as_cvar (r 0) k ⊎ NoObject as_lock (r 1) k
Missing Call.reclaim r k = NoObject as_used (r 0) k
Missing c r k = true ≡ false

none_of {ℓ} : {A : Type ℓ} (o : Option A) → is_some o ≡ false → o ≡ none
none_of none e = refl
none_of (some a) e = absurd (ground (arith, e))

-- GetObject finds no object of the kind.
no_object {ℓ} :
    {A : Type ℓ} (as_kind : IpcObject → Option A) (id : ℤ) (k : Kernel)
    → NoObject as_kind id k
    → (if out_of_range id then none else as_kind (k.objects (to_ℕ id))) ≡ none
no_object as_kind (negsuc n) k h = refl
no_object as_kind (pos n) k (inl over) = let out : leb 128 n ≡ true = ground arith in rw out refl
no_object as_kind (pos n) k (inr other) = elim (Bool-cases (leb 128 n)) [
  | inl out ↦ rw out refl
  | inr inside ↦ rw inside (none_of _ other)
]

no_pipe : (id : ℤ) (k : Kernel) → NoObject as_pipe id k → get_pipe id k ≡ none
unfolding get_pipe
no_pipe id k h = no_object as_pipe id k h

no_lock : (id : ℤ) (k : Kernel) → NoObject as_lock id k → get_lock id k ≡ none
unfolding get_lock
no_lock id k h = no_object as_lock id k h

no_cvar : (id : ℤ) (k : Kernel) → NoObject as_cvar id k → get_cvar id k ≡ none
unfolding get_cvar
no_cvar id k h = no_object as_cvar id k h

unused :
    (id : ℤ) (k : Kernel)
    → NoObject as_used id k
    → (out_of_range id ≡ true) ⊎ (k.objects (to_ℕ id) ≡ free)
unused (negsuc n) k h = inl refl
unused (pos n) k (inl over) = let out : leb 128 n ≡ true = ground arith in inl (rw out refl)
unused (pos n) k (inr other) = inr (is_free_slot (k.objects n) other)
  where
    is_free_slot : (o : IpcObject) → is_some (as_used o) ≡ false → o ≡ free
    is_free_slot free e = refl
    is_free_slot (pipe p) e = absurd (ground (arith, e))
    is_free_slot (lock l) e = absurd (ground (arith, e))
    is_free_slot (cvar q) e = absurd (ground (arith, e))

some_length :
    (len : ℤ) (buf : ℕ) → len ≢ pos 0 → bad_buffer buf len ≡ false → (to_ℕ len == 0) ≡ false
some_length (pos n) buf nz good = let live : n ≢ 0 = λ e. nz (ap pos e) in ground (arith, live)
some_length (negsuc n) buf nz good = absurd (ground (arith, good))

module _ ⦃hw : Hardware⦄ (k : Kernel) where
  pipe_write-none :
      (malloc_ok : Bool) (id : ℤ) (buf : ℕ) (len : ℤ)
      → get_pipe id k ≡ none
      → len ≢ pos 0
      → sys_pipe_write malloc_ok id buf len k ≡ (returned error, k)
  unfolding sys_pipe_write
  pipe_write-none malloc_ok id buf len e nz = elim (Bool-cases (bad_buffer buf len)) [
    | inl bad ↦ rw bad refl
    | inr good ↦ rw (good, some_length len buf nz good) (rw e refl)
  ]

  read_loop-none :
      (id : ℕ) (buf len : ℕ)
      → get_pipe (pos id) k ≡ none
      → pipe_read_loop id buf len k ≡ (returned error, k)
  unfolding pipe_read_loop
  read_loop-none id buf len e = rw (pipe_read_loop, e) refl

  pipe_read-none :
      (id : ℤ) (buf : ℕ) (len : ℤ)
      → get_pipe id k ≡ none
      → len ≢ pos 0
      → sys_pipe_read id buf len k ≡ (returned error, k)
  unfolding sys_pipe_read
  pipe_read-none (negsuc id) buf len e nz = ground arith
  pipe_read-none (pos id) buf len e nz = elim (Bool-cases (bad_buffer buf len)) [
    | inl bad ↦ rw bad refl
    | inr good ↦
        rw (good, some_length len buf nz good)
          (elim (Bool-cases (no_process k)) [
            | inl idle ↦ rw idle refl
            | inr user ↦ rw user (read_loop-none id buf (to_ℕ len) e)
          ])
  ]

  cvar_wait-none :
      (id lock_id : ℤ)
      → (get_cvar id k ≡ none) ⊎ (get_lock lock_id k ≡ none)
      → sys_cvar_wait id lock_id k ≡ (returned error, k)
  unfolding sys_cvar_wait
  cvar_wait-none id lock_id (inl e) = rw (sys_cvar_wait, e) refl
  cvar_wait-none id lock_id (inr e) = elim (Option-cases (get_cvar id k)) [
    | inl f ↦ rw (sys_cvar_wait, f) refl
    | inr (q, f) ↦ rw (sys_cvar_wait, f) (rw e refl)
  ]

  reclaim-none :
      (id : ℤ)
      → (out_of_range id ≡ true) ⊎ (k.objects (to_ℕ id) ≡ free)
      → sys_reclaim id k ≡ (returned error, k)
  unfolding sys_reclaim
  reclaim-none id (inl e) = rw e refl
  reclaim-none id (inr e) =
      rw e (elim (Bool-cases (out_of_range id)) [ inl bad ↦ rw bad refl | inr good ↦ rw good refl ])

  lock-none :
      (id : ℤ)
      → get_lock id k ≡ none
      → (sys_acquire id k ≡ (returned error, k)) × (sys_release id k ≡ (returned error, k))
  unfolding sys_acquire lock_acquire sys_release
  lock-none id e = (rw (lock_acquire, e) refl, rw (sys_release, e) refl)

  cvar-none :
      (id : ℤ)
      → get_cvar id k ≡ none
      → (sys_cvar_signal id k ≡ (returned error, k))
        × (sys_cvar_broadcast id k ≡ (returned error, k))
  unfolding sys_cvar_signal sys_cvar_broadcast
  cvar-none id e = (rw (sys_cvar_signal, e) refl, rw (sys_cvar_broadcast, e) refl)

  sys_call-Missing :
      (w : World) (c : Call) (r : ℕ → ℤ) (p : ℕ → ℕ)
      → Missing c r k
      → sys_call w c r p k ≡ (returned error, k)
  unfolding Missing sys_call
  sys_call-Missing w Call.pipe_read r p h =
      pipe_read-none (r 0) (p 1) (r 2) (no_pipe (r 0) k h.0) h.1
  sys_call-Missing w Call.pipe_write r p h =
      pipe_write-none w.malloc_ok (r 0) (p 1) (r 2) (no_pipe (r 0) k h.0) h.1
  sys_call-Missing w Call.acquire r p h = (lock-none (r 0) (no_lock (r 0) k h)).0
  sys_call-Missing w Call.release r p h = (lock-none (r 0) (no_lock (r 0) k h)).1
  sys_call-Missing w Call.cvar_signal r p h = (cvar-none (r 0) (no_cvar (r 0) k h)).0
  sys_call-Missing w Call.cvar_broadcast r p h = (cvar-none (r 0) (no_cvar (r 0) k h)).1
  sys_call-Missing w Call.cvar_wait r p h =
      cvar_wait-none (r 0) (r 1)
        (elim h [ inl a ↦ inl (no_cvar (r 0) k a) | inr b ↦ inr (no_lock (r 1) k b) ])
  sys_call-Missing w Call.reclaim r p h = reclaim-none (r 0) (unused (r 0) k h)
  sys_call-Missing w Call.fork r p h = absurd (ground (arith, h))
  sys_call-Missing w Call.exec r p h = absurd (ground (arith, h))
  sys_call-Missing w Call.exit r p h = absurd (ground (arith, h))
  sys_call-Missing w Call.wait r p h = absurd (ground (arith, h))
  sys_call-Missing w Call.get_pid r p h = absurd (ground (arith, h))
  sys_call-Missing w Call.brk r p h = absurd (ground (arith, h))
  sys_call-Missing w Call.delay r p h = absurd (ground (arith, h))
  sys_call-Missing w Call.tty_read r p h = absurd (ground (arith, h))
  sys_call-Missing w Call.tty_write r p h = absurd (ground (arith, h))
  sys_call-Missing w Call.pipe_init r p h = absurd (ground (arith, h))
  sys_call-Missing w Call.lock_init r p h = absurd (ground (arith, h))
  sys_call-Missing w Call.cvar_init r p h = absurd (ground (arith, h))
  sys_call-Missing w Call.unsupported r p h = absurd (ground (arith, h))

  -- A system call that names a pipe, lock or condition variable by a number that is negative, above 127, or
  -- that of an object of another type or of none (for a pipe, with a length other than 0; for a wait, the variable or the lock): the trap puts
  -- ERROR into register 0 of the caller, and nothing else changes.
  pub trap_kernel-Missing :
      (call_of : ℕ → Call) (w : World)
      → Missing
          (call_of (k.procs k.current).user_context.code)
          (k.procs k.current).user_context.regs
          k
      → trap_kernel call_of w k ≡ (returned error, modify k.current (set_reg0 error) k)
  unfolding trap_kernel syscall_dispatch
  trap_kernel-Missing call_of w h = ap store_result (
      sys_call-Missing w (call_of (k.procs k.current).user_context.code)
        (k.procs k.current).user_context.regs _ h)
