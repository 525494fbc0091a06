-- ===== src/StreamDbg/Tests.antt =====
-- The design information for 4096 bytes, and the driver that starts on it.
use remote_debug_for_intel_f.Prelude.{◌+◌, ◌^◌, ◌≤◌, ◌≡◌, refl, [], some, arith}
use remote_debug_for_intel_f.Prelude.Int.{pos}
use remote_debug_for_intel_f.Mmio.{Mmio}
use remote_debug_for_intel_f.Driver.{Device, initial_driver}
use remote_debug_for_intel_f.Driver.Slots.Queue.{Holds}
use remote_debug_for_intel_f.Driver.Control.{set_design_info, init_driver}
use remote_debug_for_intel_f.StreamDbg.Ready.{init_driver-set_design_info}
use remote_debug_for_intel_f.StreamDbg.{get_design_info}
use remote_debug_for_intel_f.StreamDbg.Design.{get_design_info-disjoint}

get_design_info-disjoint_example :
    ((get_design_info 4096).h2t_mem_sz ≡ 4096)
    × ((get_design_info 4096).t2h_mem_sz ≡ 4096)
    × (2048 ≤ (get_design_info 4096).h2t_mem_base_addr)
    × ((get_design_info 4096).h2t_mem_base_addr + 4096 ≤ (get_design_info 4096).t2h_mem_base_addr)
    × ((get_design_info 4096).t2h_mem_base_addr + 4096 ≤ 2 ^ 32)
get_design_info-disjoint_example = get_design_info-disjoint 4096 (omega arith) (omega arith)

-- A hardware of the supported type and version.
abbrev right_hardware : Mmio (Unit {0})
right_hardware = record {
  read_32 = λ h r x. (0, x);
  write_32 = λ h r v x. x;
  read_64 = λ h r x. (0x5244444d, x);
  write_64 = λ h r v x. x;
}

abbrev unset : Device (Unit {0})
unset = record { drv = initial_driver; hw = tt }

init_driver-set_design_info_example :
    (d' : Device (Unit {0})) × (init_driver right_hardware
        (pos 0)
        (set_design_info (get_design_info 4096) unset)
      ≡ some (pos 0, d'))
    × Holds d'.drv.h2t []
    × (d'.drv.h2t.rx_cbuff.span ≡ 4096)
    × (d'.drv.h2t.rx_cbuff.raw_buff + 4096 ≤ (get_design_info 4096).t2h_mem_base_addr)
init_driver-set_design_info_example =
    init_driver-set_design_info right_hardware 4096 (pos 0) unset (omega arith) (omega arith) refl
      refl refl
