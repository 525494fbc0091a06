-- ===== src/Driver/Tests.antt =====
-- The descriptor words, the initialisation and the loopback mode on a hardware of two registers.
use remote_debug_for_intel_f.Prelude.{
  ◌+◌, ◌^◌, ◌*◌, ℕ, ◌+◌, ◌≡◌, refl, true, false, [], some, arith, u32, ◌>>◌, ◌==◌, if◌then◌else◌,
}
use remote_debug_for_intel_f.Prelude.Int.{pos}
use remote_debug_for_intel_f.CircleBuff.{cbuff_init}
use remote_debug_for_intel_f.Mmio.{Mmio}
use remote_debug_for_intel_f.Packet.{H2tPacketHeader}
use remote_debug_for_intel_f.Driver.{Device, DesignInfo, initial_driver}
use remote_debug_for_intel_f.Driver.Reg
use remote_debug_for_intel_f.Driver.Data.{push_h2t_data, get_t2h_data}
use remote_debug_for_intel_f.Driver.Data.Frames.{
  Fragment, words_of, header_of, push_h2t_data_lem, get_t2h_data-words_of,
}
use remote_debug_for_intel_f.Driver.Slots.Queue.{Holds}
use remote_debug_for_intel_f.Driver.Control.{init_driver, set_loopback_mode, get_loopback_mode}
use remote_debug_for_intel_f.Driver.Control.Init.{init_driver-Holds}
use remote_debug_for_intel_f.Driver.Control.Loopback.{answer, get_loopback_mode-set_loopback_mode}

-- The first register is the length word of T2H, the second everything else.
abbrev regs : Mmio (ℕ × ℕ)
regs = record {
  read_32 = λ h r x. (x.1, x);
  write_32 = λ h r v x. (x.0, v);
  read_64 = λ h r x. ((if r == Reg.t2h_how_long then x.0 else x.1), x);
  write_64 = λ h r v x. if r == Reg.t2h_how_long then (v, x.1) else (x.0, v);
}

abbrev header : H2tPacketHeader
header = record { sop_eop = 0; conn_id = 0; channel = 0; data_len_bytes = 0 }

abbrev info : DesignInfo
info = record {
  csr_base_addr = 0;
  h2t_mem_base_addr = 2048;
  h2t_mem_sz = 1024;
  t2h_mem_base_addr = 4096;
  t2h_mem_sz = 1024;
  mgmt_mem_base_addr = 0;
  mgmt_mem_sz = 0;
  mgmt_rsp_mem_base_addr = 0;
  mgmt_rsp_mem_sz = 0;
}

-- A device of the supported type and version.
abbrev fresh : Device (ℕ × ℕ)
fresh = record {
  drv = record initial_driver { std_dbg_ip_info = info; dbg_info_set = true };
  hw = (0, 0x5244444d);
}

init_driver-Holds_example :
    (d' : Device (ℕ × ℕ)) × (init_driver regs (pos 0) fresh ≡ some (pos 0, d'))
    × Holds d'.drv.h2t []
    × (d'.drv.t2h_sop ≡ true)
    × (d'.drv.h2t.rx_cbuff ≡ cbuff_init 2048 1024)
init_driver-Holds_example =
    init_driver-Holds regs (pos 0) fresh refl refl refl refl (omega arith) (omega arith)
      (omega arith)

get_loopback_mode-set_loopback_mode_example :
    answer ((set_loopback_mode regs 1 >> get_loopback_mode regs) fresh)
    ≡ some (if 1 == 1 then 1 else 0)
get_loopback_mode-set_loopback_mode_example =
    get_loopback_mode-set_loopback_mode regs 1 fresh (λ v x. refl)

abbrev fragment : Fragment
fragment = record { last = true; conn_id = 5; channel = 0x102; len = 600; where_at = 64 }

-- The hardware offers the fragment.
abbrev offering : Device (ℕ × ℕ)
offering = record fresh {
  hw = ((words_of (header_of false fragment) 64).0, (words_of (header_of false fragment) 64).1);
}

abbrev three_slots : Device (ℕ × ℕ)
three_slots = record fresh {
  drv = record (fresh.drv) { h2t = record (fresh.drv.h2t) { slots_available = 3 } };
}

push_h2t_data_lem_example :
    push_h2t_data regs (header_of false fragment) 2048 three_slots
    ≡ some (
      pos 0,
      record {
        drv = record (three_slots.drv) {
          h2t = record (three_slots.drv.h2t) { slots_available = 2 };
        };
        hw =
            regs.write_64 three_slots.drv.mmio_handle Reg.h2t_connection_id
              (fragment.conn_id + fragment.channel * 2 ^ 32)
              (regs.write_64 three_slots.drv.mmio_handle Reg.h2t_how_long
                (fragment.len + 2 ^ 31 + 2048 * 2 ^ 32)
                three_slots.hw);
      },
    )
push_h2t_data_lem_example =
    push_h2t_data_lem regs three_slots (header_of false fragment) 2048 (omega arith) (omega arith)
      (omega arith) (omega arith) (omega arith) (omega arith)

get_t2h_data-words_of_example :
    get_t2h_data regs header 0 offering
    ≡ some (
      (pos 0, header_of true fragment, u32 (64 + 4096)),
      record { drv = record (offering.drv) { t2h_sop = true }; hw = offering.hw },
    )
get_t2h_data-words_of_example =
    get_t2h_data-words_of regs offering false fragment (offering.hw) (offering.hw) header 0
      (record {
        conn_id = omega arith;
        channel = omega arith;
        len = omega arith;
        nonempty = omega arith;
        where_at = omega arith;
      })
      refl refl
