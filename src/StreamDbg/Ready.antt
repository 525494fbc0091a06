-- ===== src/StreamDbg/Ready.antt =====
-- The design information that the server starts with is one that the driver can be initialised on.
use remote_debug_for_intel_f.Prelude.{
  ℕ, ◌+◌, ◌*◌, ◌^◌, ◌≤◌, ◌<◌, ◌≡◌, refl, ap, ◌∙◌, [], some, arith, u32, shr, length,
}
use remote_debug_for_intel_f.Prelude.Int.{ℤ, pos}
use remote_debug_for_intel_f.CircleBuff.{cbuff_init}
use remote_debug_for_intel_f.Mmio.{Mmio}
use remote_debug_for_intel_f.Driver.{Device, supported_type, supported_version}
use remote_debug_for_intel_f.Driver.Reg
use remote_debug_for_intel_f.Driver.Slots.Queue.{Holds}
use remote_debug_for_intel_f.Driver.Control.{set_design_info, init_driver}
use remote_debug_for_intel_f.Driver.Control.Init.{init_driver-Holds}
use remote_debug_for_intel_f.StreamDbg.{get_design_info}
use remote_debug_for_intel_f.StreamDbg.Design.{get_design_info-disjoint}

-- For a memory size other than 0 of which three fit into 32 bits, hardware of the supported type
-- and version, and a chain of 128 entries: after the design information of that size has been set,
-- `init_driver` answers 0, and the descriptors of H2T hold an empty queue over a ring of that size
-- which ends at or before the T2H memory.
pub init_driver-set_design_info :
    {X : Type 0} (m : Mmio X) (size : ℕ) (mmio_handle : ℤ) (d : Device X)
    → 0 < size
    → 3 * size ≤ 2 ^ 32
    → u32 ((m.read_64 mmio_handle Reg.config_type d.hw).0) ≡ supported_type
    → u32 (shr ((m.read_64 mmio_handle Reg.config_type d.hw).0) 32) ≡ supported_version
    → length d.drv.h2t.chain ≡ 128
    → (d' : Device X) × (init_driver m mmio_handle (set_design_info (get_design_info size) d)
        ≡ some (pos 0, d'))
      × Holds d'.drv.h2t []
      × (d'.drv.h2t.rx_cbuff.span ≡ size)
      × (d'.drv.h2t.rx_cbuff.raw_buff + size ≤ (get_design_info size).t2h_mem_base_addr)
unfolding set_design_info cbuff_init
init_driver-set_design_info m size mmio_handle d some_bytes small right_type right_version chain =
    let at = get_design_info-disjoint size some_bytes small in
    let ready =
      init_driver-Holds m mmio_handle (set_design_info (get_design_info size) d) refl right_type
        right_version chain (omega (arith, at.0)) (omega (arith, at.2)) (omega (arith, at)) in
    (
      ready.0,
      ready.1,
      ready.2,
      ap (λ c. c.span) ready.4 ∙ at.0,
      omega (arith, ap (λ c. c.raw_buff) ready.4, at.3),
    )
