-- ===== src/Fork/Tests.antt =====
-- A fork of the running process of the sample kernel, which has two pages; one with enough free
-- frames, and one with too few.
use yalnix.Base.{ℕ, ◌≡◌, refl, true, false, ◌&&◌, arith, pos, ◌==◌, ltb, if◌then◌else◌}
use yalnix.Hardware.Sample.{sample}
use yalnix.Memory.{
  Memory, zero_pte, frame_alloc, frame_scan, frame_free, memory_map_page, memory_unmap_page,
  memory_free_page_table_frames, release_valid,
}
use yalnix.Memory.Isolation.{IsIsolated}
use yalnix.State.{Kernel}
use yalnix.State.Sample.{blank_memory, three_processes}
use yalnix.Fork.{scratch_page, alloc_stack, copy_page, copy_pages, copy_region, sys_fork}
use yalnix.Fork.Stack.{StackTaken, alloc_stack-StackTaken}
use yalnix.Fork.Copy.Region.{Region, copy_region-Region}
use yalnix.Fork.Promise.{CanFork}
use yalnix.Fork.Born.{Forked, sys_fork-Forked}

-- Frames 0 to 2 are in use; the table 16384 maps page 0 and page 127.
abbrev two_pages : (frame_count : ℕ) → Memory
two_pages frame_count = record blank_memory {
  frame_count = frame_count;
  allocated = λ p. ltb p 3;
  tables = λ t j.
      if t == 16384 && j == 0
      then record { valid = true; prot = 5; pfn = 1 }
      else if t == 16384 && j == 127
      then record { valid = true; prot = 3; pfn = 2 }
      else zero_pte;
}

two_pages-IsIsolated : IsIsolated (two_pages 12)
two_pages-IsIsolated = record {
  held = λ t i h. ground arith;
  apart = λ t i u j h k e. ground arith;
}

abbrev forking : Kernel
forking = record three_processes { memory = two_pages 12 }

forking-CanFork : CanFork 4 40960 forking
forking-CanFork = record {
  user = omega arith;
  no_idle = omega arith;
  child_live = omega arith;
  child_new = omega arith;
  child_no_idle = omega arith;
  pt_live = omega arith;
  pt_new = omega arith;
  pt_user = omega arith;
  parent_user = omega arith;
  kernel_live = omega arith;
  scratch_fits = omega arith;
  isolated = two_pages-IsIsolated;
  reserved = refl;
}

sys_fork-Forked_example : Forked 4 40960 3 forking (sys_fork 4 40960 (pos 3) true forking)
sys_fork-Forked_example = sys_fork-Forked 4 40960 3 forking forking-CanFork (omega arith)

copy_region-Region_example :
    Region 40960 16384
      (λ a. a)
      (two_pages 12)
      (copy_region 40960 16384 (λ a. a) (λ _. 0) (two_pages 12))
copy_region-Region_example =
    copy_region-Region 40960 16384 (λ a. a) (two_pages 12) (omega arith) (omega arith) (omega arith)
      (omega arith) (omega arith) (omega arith) (λ j. refl) (λ _. 0) two_pages-IsIsolated

alloc_stack-StackTaken_example :
    StackTaken 2 (two_pages 12) (alloc_stack 2 0 (λ _. 0) (two_pages 12))
alloc_stack-StackTaken_example = alloc_stack-StackTaken 2 (two_pages 12) (λ _. 0)

-- With one free frame the copy fails at the second page, and the scratch page of the kernel's table
-- is still mapped, to frame 3, which is free.
stale_scratch :
    let (ok, to, m) = copy_region 40960 16384 (λ a. a) (λ _. 0) (two_pages 4) in
    (ok ≡ false)
    × ((m.tables 4096 scratch_page).valid ≡ true)
    × ((m.tables 4096 scratch_page).pfn ≡ 3)
    × (m.allocated 3 ≡ false)
unfolding copy_region copy_pages copy_page frame_alloc frame_scan memory_map_page memory_unmap_page
    memory_free_page_table_frames release_valid frame_free
stale_scratch = (refl, refl, refl, refl)
