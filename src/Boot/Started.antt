-- ===== src/Boot/Started.antt =====
-- KernelStart of src/kernelstart.c as a whole: where the machine stands when init starts.
use yalnix.Base.{
  ℕ, ◌<◌, ◌≡◌, refl, ◌≢◌, inl, inr, Bool, true, false, not, ◌||◌, Option, none, some, List, [],
  arith, ◌==◌, ==_refl, Bool-cases, Option-cases, ◌>>=◌, subst,
}
use yalnix.Hardware.{Hardware}
use yalnix.Memory.{Memory, memory_free_page_table_frames}
use yalnix.State.{Kernel, ProcState, Resume, free}
use yalnix.Process.{kc_switch, process_switch}
use yalnix.Ipc.{ipc_max_objects}
use yalnix.Fork.{kc_copy}
use yalnix.Loader.{File, LoadInfo, load_program, fill_segments, load_mapped, misfits, map_segments}
use yalnix.Boot.{
  Machine, process_init, memory_init, memory_build_kernel_region0, process_create_idle,
  process_create_init, enable, end_load, start_init, init_args, init_name, kernel_start,
}
use yalnix.Boot.Made.{
  OrPanic, bind-OrPanic, anything, Quiet, AtIdle, set_up, fresh, idle-Quiet, enable-AtIdle,
  init-AtIdle,
}

module _ ⦃hw : Hardware⦄ (b : Machine) where
  -- The machine runs init, and the idle process stands in KernelStart, from where it goes on to DoIdle.
  pub record Started (k : Kernel) : Type 0 where
    pub current : k.current ≡ b.init
    pub init : k.init ≡ b.init
    pub idle : k.idle ≡ b.idle
    pub running : (k.procs b.init).state ≡ ProcState.running
    pub waiting : (k.procs b.idle).kernel_context ≡ Resume.in_boot
    pub loop : (k.procs b.idle).user_context.pc ≡ b.do_idle
    pub ready : k.ready_queue ≡ []
    pub objects : (i : ℕ) → i < ipc_max_objects → k.objects i ≡ free

  -- KernelStart ends, and leaves the machine so.
  pub Boots : Kernel → Type 0
  Boots k = (k' : Kernel) × (kernel_start b k ≡ some k') × Started k'

  module _ (other : b.init ≢ b.idle) where
    apart : (b.init == b.idle) ≡ false
    apart = ground (arith, other)

    switched :
        (k : Kernel)
        → AtIdle b k
        → b.init ≢ 0
        → Started (
            process_switch b.init Resume.in_boot
              (kc_copy b.init Resume.in_boot (record k { init = b.init })))
    unfolding process_switch kc_switch kc_copy
    switched k a live =
        let z : (b.init == 0) ≡ false = ground (arith, live) in
        let y : (b.idle == 0) ≡ false = ground (arith, a.quiet.idle_live) in
        let x : (b.idle == b.init) ≡ false = ground (arith, other) in
        rw (a.current, z, apart, y)
          (record {
            current = refl;
            init = refl;
            idle = a.idle;
            running = rw (x, ==_refl b.init) refl;
            waiting = rw (==_refl b.idle) refl;
            loop = rw (==_refl b.idle) a.quiet.loop;
            ready = a.quiet.ready;
            objects = a.quiet.objects;
          })

    filled :
        (li : LoadInfo) (args : List (List ℕ)) (residue : ℕ → ℕ) (text data_bytes : Option (ℕ → ℕ))
        (k : Kernel)
        → Started k
        → OrPanic Started (end_load (fill_segments li args residue text data_bytes b.init k))
    filled li args residue none data_bytes k s = tt
    filled li args residue (some text) none k s = tt
    filled li args residue (some text) (some data_bytes) k s = record {
      current = s.current;
      init = s.init;
      idle = s.idle;
      running = rw (==_refl b.init) s.running;
      waiting = rw apart s.waiting;
      loop = rw apart s.loop;
      ready = s.ready;
      objects = s.objects;
    }

    mapped :
        (li : LoadInfo) (file : File) (args : List (List ℕ)) (k : Kernel) (r : Bool × Memory)
        → Started k
        → OrPanic Started (end_load (load_mapped li file args b.init k r))
    mapped li file args k (false, m) s = tt
    mapped li file args k (true, m) s =
        filled li args file.residue file.text file.data_bytes _ (record {
          current = s.current;
          init = s.init;
          idle = s.idle;
          running = s.running;
          waiting = s.waiting;
          loop = s.loop;
          ready = s.ready;
          objects = s.objects;
        })

    load-Started :
        (file : File) (args : List (List ℕ)) (k : Kernel)
        → Started k
        → OrPanic Started (end_load (load_program file args b.init k))
    unfolding load_program
    load-Started file args k s = elim (Option-cases file.info) [
      | inl absent ↦ rw absent tt
      | inr (li, found) ↦ rw found (elim (Bool-cases (misfits li args || not file.malloc_ok)) [
        | inl bad ↦ rw bad tt
        | inr good ↦ rw good (
            mapped li file args k
              (map_segments (k.procs b.init).region1_pt li args
                (memory_free_page_table_frames (k.procs b.init).region1_pt k.memory))
              s)
      ])
    ]

    start-Started :
        (k : Kernel)
        → AtIdle b k
        → b.init ≢ 0
        → OrPanic Started (start_init b (record k { init = b.init }))
    start-Started k a live = elim (Bool-cases (not b.cloned)) [
      | inl undone ↦ rw undone tt
      | inr done ↦ rw done (
          load-Started (b.files (init_name b.cmd_args)) (init_args b.cmd_args) _
            (switched k a live))
    ]

    -- KernelStart from the return of ProcessCreateInit, of ProcessCreateIdle, of MemoryBuildKernelRegion0
    -- and of MemoryInit on.
    abbrev after_init : Kernel → Option Kernel
    after_init k = start_init b (record k { init = b.init })

    abbrev after_idle : Kernel → Option Kernel
    after_idle k =
        process_create_init b.init b.init_pt b.init_pid b.uctxt (enable b.idle k) >>= after_init

    abbrev after_build : Kernel → Memory → Option Kernel
    after_build k m =
        process_create_idle b.idle b.idle_pt b.idle_pid b.do_idle b.uctxt (set_up b k m)
        >>= after_idle

    idle-Started : (k : Kernel) → Quiet b k → OrPanic Started (after_idle k)
    idle-Started k q =
        bind-OrPanic (λ k'. AtIdle b k' × (b.init ≢ 0)) Started
          (process_create_init b.init b.init_pt b.init_pid b.uctxt (enable b.idle k)) after_init
          (init-AtIdle b other (enable b.idle k) (enable-AtIdle b k q))
          (λ k' a. start-Started k' a.0 a.1)

    build-Started : (k : Kernel) (m : Memory) → OrPanic Started (after_build k m)
    build-Started k m =
        bind-OrPanic (Quiet b) Started
          (process_create_idle b.idle b.idle_pt b.idle_pid b.do_idle b.uctxt (set_up b k m))
          after_idle (idle-Quiet b (set_up b k m) (fresh b k m)) idle-Started

    memory-Started :
        (k : Kernel) (o : Option Memory)
        → OrPanic Started (o >>= (λ m. memory_build_kernel_region0 m >>= after_build k))
    memory-Started k none = tt
    memory-Started k (some m) =
        bind-OrPanic (λ _. Unit) Started (memory_build_kernel_region0 m) (after_build k)
          (anything (memory_build_kernel_region0 m)) (λ n _. build-Started k n)

    kernel_start-OrPanic : (k : Kernel) → OrPanic Started (kernel_start b k)
    unfolding kernel_start
    kernel_start-OrPanic k =
        memory-Started k (memory_init b.pmem_size b.kernel_pt b.requests (process_init k).memory)

    -- Init and the idle process are two PCBs, and none of what KernelStart calls makes it panic: it ends
    -- with init running, with the idle process suspended in KernelStart and to go on to DoIdle, with an
    -- empty ready queue, and with no pipe, lock or condition variable.
    pub kernel_start-Started : (k : Kernel) → kernel_start b k ≢ none → Boots k
    unfolding Boots
    kernel_start-Started k live = elim (Option-cases (kernel_start b k)) [
      | inl panic ↦ absurd (live panic)
      | inr (k', e) ↦ (k', e, subst (OrPanic Started) e (kernel_start-OrPanic k))
    ]
