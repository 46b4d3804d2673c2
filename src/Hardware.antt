-- ===== src/Hardware.antt =====
-- The constants of the Yalnix framework's headers (hardware.h, ykernel.h, yalnix.h), which are not
-- in the repository. Every definition that uses one takes them as an instance argument.
pub mod Sample
use yalnix.Base.{ℕ, ◌+◌, ◌*◌, ◌/◌, ◌^◌, ◌≤◌, ◌<◌, ◌≡◌}
use Prim.Native.Nat.{bit_or}

pub record Hardware : Type 0 where
  pub page_shift : ℕ
  pub max_pt_len : ℕ
  pub max_pmem_size : ℕ
  pub kernel_stack_base : ℕ
  pub kernel_stack_limit : ℕ
  pub kernel_stack_maxsize : ℕ
  pub vmem_1_base : ℕ
  pub vmem_1_limit : ℕ
  pub first_kernel_text_page : ℕ
  pub first_kernel_data_page : ℕ
  pub orig_kernel_brk_page : ℕ
  pub prot_none : ℕ
  pub prot_read : ℕ
  pub prot_write : ℕ
  pub prot_exec : ℕ
  pub tlb_flush_all : ℕ
  pub tlb_flush_1 : ℕ
  pub tlb_flush_kstack : ℕ
  pub max_procs : ℕ
  pub num_terminals : ℕ
  pub terminal_max_line : ℕ
  pub pipe_buffer_len : ℕ
  pub post_argv_null_space : ℕ
  pub initial_stack_frame_size : ℕ
  pub up_to_page : ℕ → ℕ
  -- `memcpy(a, a + n, left)` where the two blocks overlap: what it leaves is not specified.
  pub memcpy_overlapping : (a : ℕ → ℕ) (n left : ℕ) → ℕ → ℕ
  pub down_to_page : ℕ → ℕ

module _ ⦃hw : Hardware⦄ where
  abbrev pub page_size : ℕ
  page_size = 2 ^ hw.page_shift

  -- `addr >> PAGESHIFT`
  abbrev pub page_of : ℕ → ℕ
  page_of a = a / page_size

  -- `page << PAGESHIFT`
  abbrev pub address_of : ℕ → ℕ
  address_of p = p * page_size

  abbrev pub prot_rw : ℕ
  prot_rw = bit_or hw.prot_read hw.prot_write

  abbrev pub prot_rx : ℕ
  prot_rx = bit_or hw.prot_read hw.prot_exec

  abbrev pub stack_base_page : ℕ
  stack_base_page = page_of hw.kernel_stack_base

  abbrev pub stack_limit_page : ℕ
  stack_limit_page = page_of hw.kernel_stack_limit

  abbrev pub stack_pages : ℕ
  stack_pages = hw.kernel_stack_maxsize / page_size
