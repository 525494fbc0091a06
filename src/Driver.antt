-- ===== src/Driver.antt =====
-- The state of the driver, streaming/src/intel_st_debug_if_st_dbg_ip_driver.c, and the constants of
-- streaming/inc/intel_st_debug_if_st_dbg_ip_driver.h. Its functions are in the modules below.
pub mod Reg
pub mod Slots
pub mod Data
pub mod Control
pub mod Copy
mod Tests
use remote_debug_for_intel_f.Prelude.{
  ℕ, ◌+◌, ◌-◌, ◌^◌, Bool, true, false, List, replicate, u64, shl, shr,
}
use remote_debug_for_intel_f.Prelude.Int.{ℤ, minus_one}
use remote_debug_for_intel_f.CircleBuff.{CircleBuff}

-- MAX_H2T_DESCRIPTOR_DEPTH and MAX_MGMT_DESCRIPTOR_DEPTH
abbrev pub max_descriptor_depth : ℕ
max_descriptor_depth = 128

-- ALIGN_TO and GET_ALIGNED_SZ, with ST_DBG_IP_BUFF_ALIGN_POW_2
abbrev pub buff_align_pow_2 : ℕ
buff_align_pow_2 = 3

abbrev pub align_to : ℕ → ℕ
align_to n = shl (shr n buff_align_pow_2) buff_align_pow_2

unfoldable pub get_aligned_sz : ℕ → ℕ
get_aligned_sz n = align_to (u64 (n + 2 ^ buff_align_pow_2 - 1))

abbrev pub supported_type : ℕ
supported_type = 0x5244444d

abbrev pub supported_version : ℕ
supported_version = 0x0

-- The fields of ST_DBG_IP_CONFIG_RESET_AND_LOOPBACK.
abbrev pub h2t_t2h_reset_field : ℕ
h2t_t2h_reset_field = 0x1

abbrev pub loopback_field : ℕ
loopback_field = 0x2

abbrev pub enable_int_field : ℕ
enable_int_field = 0x4

abbrev pub last_descriptor_mask : ℕ
last_descriptor_mask = 0x80000000

abbrev pub how_long_mask : ℕ
how_long_mask = 0x7fffffff

-- ST_DBG_IP_DESIGN_INFO
pub record DesignInfo : Type 0 where
  pub csr_base_addr : ℕ
  pub h2t_mem_base_addr : ℕ
  pub h2t_mem_sz : ℕ
  pub t2h_mem_base_addr : ℕ
  pub t2h_mem_sz : ℕ
  pub mgmt_mem_base_addr : ℕ
  pub mgmt_mem_sz : ℕ
  pub mgmt_rsp_mem_base_addr : ℕ
  pub mgmt_rsp_mem_sz : ℕ

-- g_h2t_descriptor_slots_available, _chain, _write_idx, _read_idx and g_h2t_rx_cbuff; and the same
-- five of MGMT.
pub record Descriptors : Type 0 where
  pub slots_available : ℕ
  pub chain : List ℕ
  pub write_idx : ℕ
  pub read_idx : ℕ
  pub rx_cbuff : CircleBuff

-- The globals of the driver.
pub record Driver : Type 0 where
  pub std_dbg_ip_info : DesignInfo
  pub dbg_info_set : Bool
  pub mmio_handle : ℤ
  pub h2t : Descriptors
  pub mgmt : Descriptors
  pub t2h_sop : Bool
  pub mgmt_rsp_sop : Bool

-- The driver beside the hardware that it drives.
pub record Device (X : Type 0) : Type 0 where
  pub drv : Driver
  pub hw : X

abbrev zero_cbuff : CircleBuff
zero_cbuff = record {
  raw_buff = 0;
  span = 0;
  write_offset = 0;
  read_offset = 0;
  space_available = 0;
}

abbrev zero_descriptors : Descriptors
zero_descriptors = record {
  slots_available = 0;
  chain = replicate max_descriptor_depth 0;
  write_idx = 0;
  read_idx = 0;
  rx_cbuff = zero_cbuff;
}

-- The globals as they are initialised.
abbrev pub initial_driver : Driver
initial_driver = record {
  std_dbg_ip_info = record {
    csr_base_addr = 0;
    h2t_mem_base_addr = 0;
    h2t_mem_sz = 0;
    t2h_mem_base_addr = 0;
    t2h_mem_sz = 0;
    mgmt_mem_base_addr = 0;
    mgmt_mem_sz = 0;
    mgmt_rsp_mem_base_addr = 0;
    mgmt_rsp_mem_sz = 0;
  };
  dbg_info_set = false;
  mmio_handle = minus_one;
  h2t = zero_descriptors;
  mgmt = zero_descriptors;
  t2h_sop = true;
  mgmt_rsp_sop = true;
}
