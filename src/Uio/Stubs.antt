-- ===== src/Uio/Stubs.antt =====
-- The memory functions of protodrv_api/uio/src/intel_fpga_api_uio.c, which the platform does not have:
-- the state that the exception leaves, and the answer where its handler returns.
use remote_debug_for_intel_f.Prelude.{ℕ}
use remote_debug_for_intel_f.Prelude.Int.{ℤ}
use remote_debug_for_intel_f.CString.{codes}
use remote_debug_for_intel_f.Messages.{
  Messages, Handlers, Ended, returned, exited, fpga_throw_runtime_exception,
}

module _ {W : Type 0} (handlers : Handlers W) where
  abbrev unsupported : {A : Type 0} → A → Messages W → Ended A × Messages W
  unsupported answer m =
      let (ended, m') =
        fpga_throw_runtime_exception handlers
          (codes "Current platform doesn't support such feature.") m in
      (elim ended [ returned _ ↦ returned answer | exited status ↦ exited status ], m')

  unfoldable fpga_malloc : (handle : ℤ) (size : ℕ) → Messages W → Ended ℕ × Messages W
  fpga_malloc handle size = unsupported 0

  unfoldable fpga_free : (handle : ℤ) (address : ℕ) → Messages W → Ended (Unit {0}) × Messages W
  fpga_free handle address = unsupported tt

  unfoldable fpga_get_physical_address : (address : ℕ) → Messages W → Ended ℕ × Messages W
  fpga_get_physical_address address = unsupported 0
