-- ===== src/Uio/Globals.antt =====
-- The globals of protodrv_api/uio/src/intel_fpga_platform_api_uio.c, and what it uses of the
-- operating system.
use remote_debug_for_intel_f.Prelude.{ℕ, Bool, List, Option, some}
use remote_debug_for_intel_f.Prelude.Int.{ℤ, minus_one}
use remote_debug_for_intel_f.CString.{literal}
use remote_debug_for_intel_f.Interfaces.{InterfaceVec, initial_vec}

-- `errno` is the 32 bits of its value, a thread 0 no thread, a pointer its address. A path is the text
-- up to the end of its object. `interfaces` is the table, and `show_dbg_msg` the switch of the messages.
pub record Platform : Type 0 where
  pub drv_path : Option (List ℕ)
  pub addr_span : ℕ
  pub single_component_mode : ℕ
  pub start_addr : ℕ
  pub in_thread_timeout : ℕ
  pub drv_handle : ℤ
  pub mmap_ptr : ℕ
  pub int_thread_id : ℕ
  pub int_flags : ℕ
  pub show_dbg_msg : ℕ
  pub errno : ℕ
  pub interfaces : InterfaceVec

abbrev pub initial_platform : Platform
initial_platform = record {
  drv_path = some (literal "/dev/uio0");
  addr_span = 0;
  single_component_mode = 1;
  start_addr = 0;
  in_thread_timeout = 0;
  drv_handle = minus_one;
  mmap_ptr = 0;
  int_thread_id = 0;
  int_flags = 0;
  show_dbg_msg = 0;
  errno = 0;
  interfaces = initial_vec;
}

-- The calls of the operating system, over its state `W`. The calls of <pthread.h> and <semaphore.h>
-- answer 0 for success.
pub record UioOs (W : Type 0) : Type 0 where
  -- open (path, O_RDWR), -1 on failure
  pub open_rdwr : (path : List ℕ) → W → ℤ × W
  pub close : ℤ → W → W
  -- mmap of a span of a handle, none for MAP_FAILED
  pub mmap : (span : ℕ) → ℤ → W → Option ℕ × W
  pub munmap : (address span : ℕ) → W → W
  -- a stream for reading, none for NULL
  pub fopen : (path : List ℕ) → W → Option ℕ × W
  -- fscanf (stream, "%lx", &ret): the number where one was read
  pub fscanf_lx : (stream : ℕ) → W → Option ℕ × W
  pub fclose : (stream : ℕ) → W → W
  pub sem_init : W → ℕ × W
  pub rwlock_init : W → ℕ × W
  pub wrlock : W → ℕ × W
  pub unlock : W → ℕ × W
  -- the status, and the value of the semaphore
  pub sem_getvalue : W → (ℕ × ℕ) × W
  pub sem_post : W → ℕ × W
  -- the new thread, none on failure
  pub pthread_create : W → Option ℕ × W
  pub pthread_join : (thread : ℕ) → W → ℕ × W
  -- does realloc give the block of that many entries?
  pub has_memory : (size : ℕ) → W → Bool × W
  -- does fpga_throw_runtime_exception return?
  pub throw_returns : W → Bool × W
