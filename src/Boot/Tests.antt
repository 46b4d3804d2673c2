-- ===== src/Boot/Tests.antt =====
-- The sample machine starts with 256 frames; calloc makes the heap two pages larger.
use yalnix.Base.{
  Bool, pos, true, false, List, [], ◌∷◌, ℕ, refl, arith, Option, none, some, ◌≡◌, ◌≢◌, ◌∙◌, ap, sym,
}
use yalnix.Hardware.Sample.{sample}
use yalnix.Memory.{
  Memory, memory_unmap_page, frame_alloc, frame_scan, frame_free, memory_install_page_tables,
  memory_free_page_table_frames, release_valid, memory_map_page, memory_alloc_page_table,
}
use yalnix.Boot.Reserve.{Climbs}
use yalnix.KernelBrk.{set_kernel_brk, kernel_brk_page}
use yalnix.State.{Kernel}
use yalnix.State.Sample.{blank_memory, three_processes, blank_context}
use yalnix.Loader.{LoadInfo, load_program, map_segments}
use yalnix.UserMemory.{map_range}
use yalnix.Process.{kc_switch, process_switch, map_kernel_stack}
use yalnix.Ipc.{ipc_init}
use yalnix.Tty.{tty_init}
use yalnix.Fork.{process_register, process_alloc_kernel_stack, alloc_stack, kc_copy, copy_stack}
use yalnix.Boot.Started.{Boots, kernel_start-Started}
use yalnix.Boot.{
  Machine, kernel_start, process_init, process_create_idle, process_create_init, memory_init,
  memory_build_kernel_region0, brk_calls, reserve_kernel, map_kernel, map_identity,
}
use yalnix.Boot.Region0.{Laid, Booted, KernelMapped, memory_init-Booted}
use yalnix.Boot.Heap.{KeepsHeap, memory_init-KeepsHeap}
use yalnix.Boot.Late.{Unmapped, set_kernel_brk-Unmapped}

abbrev before : Memory
before = record blank_memory {
  vm_enabled = false;
  kernel_brk_page = 0;
  highest_pre_vm_brk_page = 0;
}

abbrev two_requests : List ℕ
two_requests = 0xb000 ∷ 0xe000 ∷ []

two_requests-Climbs : Climbs 5 two_requests
unfolding Climbs
two_requests-Climbs = (omega arith, (omega arith, tt))

sample-Laid : Laid 256
sample-Laid = record {
  text = omega arith;
  image = omega arith;
  stack = omega arith;
  table = omega arith;
  frames = omega arith;
}

memory_init-Booted_example : Booted 0x20_0000 4096 two_requests before
memory_init-Booted_example =
    memory_init-Booted 0x20_0000 4096 two_requests before (omega arith) sample-Laid (omega arith)
      refl refl (omega arith) (omega arith) two_requests-Climbs (λ t j. refl)

some_inj : {A : Type 0} {a b : A} → some a ≡ some b → a ≡ b
some_inj e = cc

-- What a test reads of the memory that the MMU is to be turned on with.
abbrev reading : Memory → Bool × ℕ
reading o = (o.vm_enabled, o.kernel_brk_page)

some_reading : Option Memory → Option (Bool × ℕ)
some_reading none = none
some_reading (some o) = some (reading o)

before_mmu : (o : Memory) × KernelMapped o × (reading o ≡ (false, 7))
unfolding some_reading Booted memory_init memory_build_kernel_region0 memory_alloc_page_table
    brk_calls reserve_kernel set_kernel_brk kernel_brk_page map_kernel map_identity memory_map_page
before_mmu =
    let (o, e, mapped, _) =
      memory_init-Booted 0x20_0000 4096 two_requests before (omega arith) sample-Laid (omega arith)
        refl refl (omega arith) (omega arith) two_requests-Climbs (λ t j. refl) in
    let r : some (reading o) ≡ some (false, 7) = sym (ap (some_reading) e) in
    (o, mapped, some_inj r)

set_kernel_brk-Unmapped_example : (o : Memory) × Unmapped 0x1_4000 o (set_kernel_brk 0x1_4000 o)
set_kernel_brk-Unmapped_example =
    let (o, mapped, r) = before_mmu in
    let brk : o.kernel_brk_page ≡ 7 = ap (λ p. p.1) r in
    (
      o,
      set_kernel_brk-Unmapped 0x1_4000 o mapped (ap (λ p. p.0) r)
          (λ z. absurd (omega (arith, z, brk))) (omega (arith, brk)) (omega arith),
    )

-- One page of text, one of initialised and one of uninitialised data.
abbrev init_program : LoadInfo
init_program = record {
  entry = 0x10_0020;
  t_vaddr = 0x10_0000;
  t_npg = 1;
  id_vaddr = 0x10_4000;
  id_npg = 1;
  id_end = 0x10_4100;
  ud_npg = 1;
  ud_end = 0x10_6800;
}

abbrev machine : Machine
machine = record {
  pmem_size = 0x20_0000;
  kernel_pt = 4096;
  requests = two_requests;
  idle = 1;
  idle_pt = 8192;
  idle_pid = pos 0;
  do_idle = 0x6000;
  init = 2;
  init_pt = 12288;
  init_pid = pos 1;
  cloned = true;
  uctxt = blank_context;
  cmd_args = [];
  files = λ _. record {
    info = some init_program;
    malloc_ok = true;
    text = some (λ a. a);
    data_bytes = some (λ a. a);
    residue = λ a. 1;
  };
}

abbrev powered_on : Kernel
powered_on = record three_processes { memory = before }

abbrev boots : Option Kernel → Bool
boots none = false
boots (some k) = true

booting : boots (kernel_start machine powered_on) ≡ true
unfolding kernel_start memory_init memory_build_kernel_region0 memory_alloc_page_table brk_calls
    reserve_kernel set_kernel_brk kernel_brk_page map_kernel map_identity memory_map_page
    memory_unmap_page process_init ipc_init tty_init process_create_idle process_create_init
    frame_alloc frame_scan frame_free process_register process_alloc_kernel_stack alloc_stack
    kc_copy copy_stack process_switch kc_switch map_kernel_stack memory_install_page_tables
    load_program map_segments map_range memory_free_page_table_frames release_valid
booting = refl

no_panic : kernel_start machine powered_on ≢ none
no_panic e = let a : true ≡ false = sym booting ∙ ap boots e in cc

kernel_start-Started_example : Boots machine powered_on
kernel_start-Started_example =
    kernel_start-Started machine (λ e. absurd (omega arith)) powered_on no_panic

memory_init-KeepsHeap_example : KeepsHeap 0x20_0000 4096 two_requests before
memory_init-KeepsHeap_example =
    memory_init-KeepsHeap 0x20_0000 4096 two_requests before (omega arith) sample-Laid (omega arith)
      refl refl (omega arith) (omega arith) two_requests-Climbs (λ t j. refl)
