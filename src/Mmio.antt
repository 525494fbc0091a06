-- ===== src/Mmio.antt =====
-- Register access as the driver sees it: the fpga_read and fpga_write functions of
-- protodrv_api/uio/inc/intel_fpga_api_uio.h over a handle and an offset. What a read returns and
-- changes is the hardware's: a parameter of the development.
use remote_debug_for_intel_f.Prelude.{ℕ}
use remote_debug_for_intel_f.Prelude.Int.{ℤ}

-- `X` is the state of the hardware. FPGA_MMIO_INTERFACE_HANDLE is an `int`.
pub record Mmio (X : Type 0) : Type 0 where
  pub read_32 : ℤ → ℕ → X → ℕ × X
  pub write_32 : ℤ → ℕ → ℕ → X → X
  pub read_64 : ℤ → ℕ → X → ℕ × X
  pub write_64 : ℤ → ℕ → ℕ → X → X
