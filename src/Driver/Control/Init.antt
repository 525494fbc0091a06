-- ===== src/Driver/Control/Init.antt =====
-- What init_driver checks, and the state that it leaves.
use remote_debug_for_intel_f.Prelude.{
  ◌+◌, ◌^◌, ◌≤◌, ◌<◌, ◌≡◌, ap, refl, true, [], some, arith, u32, shr, length, not, none, zero,
  if◌then◌else◌, ◌∙◌, Run,
}
use remote_debug_for_intel_f.Prelude.Int.{ℤ, pos}
use remote_debug_for_intel_f.CircleBuff.{cbuff_init}
use remote_debug_for_intel_f.CircleBuff.Bounds.{cbuff_init-IsValid}
use remote_debug_for_intel_f.Mmio.{Mmio}
use remote_debug_for_intel_f.Driver.{Device, supported_type, supported_version}
use remote_debug_for_intel_f.Driver.Reg
use remote_debug_for_intel_f.Driver.Slots.Queue.{Holds}
use remote_debug_for_intel_f.Driver.Control.{
  init_driver, missing_info, incompatible_ip, check_version_and_type, after_checks,
}

-- `init_driver` behind the test of `dbg_info_set`.
abbrev checked : {X : Type 0} → Mmio X → Run (Device X) ℤ
checked m d = elim (check_version_and_type m d) [
  | none ↦ none
  | some (pos zero, e) ↦ after_checks m e
  | some (_, e) ↦ some (incompatible_ip, e)
]

module _ {X : Type 0} (m : Mmio X) where
  check_passes :
      (d : Device X)
      → u32 ((m.read_64 d.drv.mmio_handle Reg.config_type d.hw).0) ≡ supported_type
      → u32 (shr ((m.read_64 d.drv.mmio_handle Reg.config_type d.hw).0) 32) ≡ supported_version
      → check_version_and_type m d
        ≡ some (pos 0, record d { hw = (m.read_64 d.drv.mmio_handle Reg.config_type d.hw).1 })
  unfolding check_version_and_type
  check_passes d right_type right_version = rw (right_type, right_version)

  -- With the design information set, a type and a version that the driver supports, a chain of 128
  -- entries and a nonempty H2T memory at an address other than 0 inside the 32-bit address space,
  -- `init_driver` answers 0. The descriptors of H2T then hold an empty queue over that memory, and
  -- the next T2H fragment starts a packet.
  pub init_driver-Holds :
      (mmio_handle : ℤ) (d : Device X)
      → d.drv.dbg_info_set ≡ true
      → u32 ((m.read_64 mmio_handle Reg.config_type d.hw).0) ≡ supported_type
      → u32 (shr ((m.read_64 mmio_handle Reg.config_type d.hw).0) 32) ≡ supported_version
      → length d.drv.h2t.chain ≡ 128
      → 0 < d.drv.std_dbg_ip_info.h2t_mem_sz
      → 0 < d.drv.std_dbg_ip_info.h2t_mem_base_addr
      → d.drv.std_dbg_ip_info.h2t_mem_base_addr + d.drv.std_dbg_ip_info.h2t_mem_sz ≤ 2 ^ 32
      → (d' : Device X) × (init_driver m mmio_handle d ≡ some (pos 0, d'))
        × Holds d'.drv.h2t []
        × (d'.drv.t2h_sop ≡ true)
        × (d'.drv.h2t.rx_cbuff
            ≡ cbuff_init d.drv.std_dbg_ip_info.h2t_mem_base_addr d.drv.std_dbg_ip_info.h2t_mem_sz)
  unfolding init_driver after_checks
  init_driver-Holds mmio_handle d set right_type right_version chain size base top =
      let d1 : Device X = record d { drv = record (d.drv) { mmio_handle = mmio_handle } } in
      let ring =
        cbuff_init-IsValid d.drv.std_dbg_ip_info.h2t_mem_base_addr d.drv.std_dbg_ip_info.h2t_mem_sz
          size base top in
      (
        _,
        ap (λ b. if not b then some (missing_info, d1) else checked m d1) set
            ∙ ap
                (λ o. elim o [
                  | none ↦ none
                  | some (pos zero, e) ↦ after_checks m e
                  | some (_, e) ↦ some (incompatible_ip, e)
                ])
                (check_passes d1 right_type right_version),
        record {
          chain_length = chain;
          count = omega arith;
          read_in = omega arith;
          entries = tt;
          write_at = refl;
          write_in = omega arith;
          ring = ring.0;
          held = ring.1;
        },
        refl,
        refl,
      )
