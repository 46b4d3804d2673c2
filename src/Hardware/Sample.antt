-- ===== src/Hardware/Sample.antt =====
-- A machine with the framework's layout: pages of 8 KB, one megabyte for each region, two pages of
-- kernel stack at the top of region 0, and at most 256 frames.
use yalnix.Base.{◌+◌, ◌*◌, ◌/◌}
use yalnix.Hardware.{Hardware}

instance abbrev pub sample : Hardware
sample = record {
  page_shift = 13;
  max_pt_len = 128;
  max_pmem_size = 0x20_0000;
  kernel_stack_base = 0xf_c000;
  kernel_stack_limit = 0x10_0000;
  kernel_stack_maxsize = 0x4000;
  vmem_1_base = 0x10_0000;
  vmem_1_limit = 0x20_0000;
  first_kernel_text_page = 1;
  first_kernel_data_page = 3;
  orig_kernel_brk_page = 5;
  prot_none = 0;
  prot_read = 1;
  prot_write = 2;
  prot_exec = 4;
  tlb_flush_all = 0xffff_ffff;
  tlb_flush_1 = 0xffff_fffe;
  tlb_flush_kstack = 0xffff_fffd;
  max_procs = 16;
  num_terminals = 4;
  terminal_max_line = 1024;
  pipe_buffer_len = 256;
  post_argv_null_space = 1;
  initial_stack_frame_size = 48;
  up_to_page = λ a. (a + 8191) / 8192 * 8192;
  memcpy_overlapping = λ a n left. a;
  down_to_page = λ a. a / 8192 * 8192;
}
