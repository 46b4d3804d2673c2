-- ===== src/KernelBrk/Tests.antt =====
-- SetKernelBrk and the frame table on a machine with four frames.
use yalnix.Base.{◌≡◌, refl, true, false, none, some, [], arith, ◌==◌, update}
use yalnix.Hardware.Sample.{sample}
use yalnix.Memory.{
  Memory, zero_pte, frame_alloc, frame_scan, release_valid, memory_free_page_table_frames,
  memory_map_page,
}
use yalnix.Memory.Grow.{grow, rollback}
use yalnix.Memory.Isolation.{IsIsolated}
use yalnix.Memory.Frames.{Found, frame_alloc-Found}
use yalnix.Memory.Release.{Released, memory_free_page_table_frames-Released}
use yalnix.KernelBrk.{set_kernel_brk, move_brk, kernel_brk_page}
use yalnix.KernelBrk.Outcome.{IsHeap, Moved, set_kernel_brk-Moved, set_kernel_brk-IsHeap}

-- Frame 0 is in use, the break stands at page 5, and no page is mapped.
abbrev four_frames : Memory
four_frames = record {
  frame_count = 4;
  allocated = λ p. p == 0;
  tables = λ _ _. zero_pte;
  kernel_pt = 4096;
  vm_enabled = true;
  flushes = [];
  kernel_brk_page = 5;
  highest_pre_vm_brk_page = 5;
  ptbr0 = 4096;
  ptlr0 = 128;
  ptbr1 = 8192;
  ptlr1 = 128;
}

four_frames-IsIsolated : IsIsolated four_frames
four_frames-IsIsolated = record { held = λ t i h. cc; apart = λ t i u j h k e. cc }

four_frames-IsHeap : IsHeap four_frames
four_frames-IsHeap = record {
  isolated = four_frames-IsIsolated;
  table = omega arith;
  started = omega arith;
  on = refl;
  low = omega arith;
  room = λ j c d. refl;
}

set_kernel_brk-Moved_example : Moved 8 four_frames (set_kernel_brk 0x1_0000 four_frames)
set_kernel_brk-Moved_example =
    (set_kernel_brk-Moved four_frames four_frames-IsHeap (omega arith) 0x1_0000).1 (omega arith)

set_kernel_brk-IsHeap_example : IsHeap (set_kernel_brk 0x1_4000 four_frames).1
set_kernel_brk-IsHeap_example =
    set_kernel_brk-IsHeap four_frames four_frames-IsHeap (omega arith) 0x1_4000 (omega arith)

memory_free_page_table_frames_example :
    Released 8192 0 128 four_frames (memory_free_page_table_frames 8192 four_frames)
memory_free_page_table_frames_example =
    (memory_free_page_table_frames-Released 8192 (omega arith) four_frames four_frames-IsIsolated).0

frame_alloc_example :
    Found four_frames.allocated 0 4 (frame_alloc four_frames).0
    × ((frame_alloc four_frames).1 ≡ elim (frame_alloc four_frames).0 [
      | none ↦ four_frames
      | some f ↦ record four_frames { allocated = update four_frames.allocated f true }
    ])
frame_alloc_example = frame_alloc-Found four_frames

-- Three free frames serve three pages, and not four.
three_pages : (set_kernel_brk 0x1_0000 four_frames).0 ≡ true
unfolding set_kernel_brk move_brk kernel_brk_page grow rollback release_valid frame_alloc frame_scan
    memory_map_page
three_pages = refl

four_pages : (set_kernel_brk 0x1_2000 four_frames).0 ≡ false
unfolding set_kernel_brk move_brk kernel_brk_page grow rollback release_valid frame_alloc frame_scan
    memory_map_page
four_pages = refl
