-- ===== src/Driver/Control.antt =====
-- Initialisation, configuration and parameters of the driver,
-- streaming/src/intel_st_debug_if_st_dbg_ip_driver.c.
pub mod Init
pub mod Loopback
use remote_debug_for_intel_f.Prelude.{
  ℕ, zero, ◌-◌, ◌^◌, Bool, true, false, ◌&&◌, not, List, Option, none, some, Run, ◌>>=◌, ◌>>◌, pure,
  bit_and, bit_or, u16, u32, shr, ltb, ◌==◌, if◌then◌else◌,
}
use remote_debug_for_intel_f.Prelude.Int.{ℤ, pos, negsuc}
use remote_debug_for_intel_f.CString.{literal, strncmp_eq}
use remote_debug_for_intel_f.CircleBuff.{cbuff_init}
use remote_debug_for_intel_f.Mmio.{Mmio}
use remote_debug_for_intel_f.Driver.Reg
use remote_debug_for_intel_f.Driver.{
  Device, Driver, DesignInfo, Descriptors, supported_type, supported_version, h2t_t2h_reset_field,
  loopback_field, enable_int_field,
}

-- INIT_ERROR_CODE_MISSING_INFO and INIT_ERROR_CODE_INCOMPATIBLE_IP
abbrev pub missing_info : ℤ
missing_info = negsuc 0

abbrev pub incompatible_ip : ℤ
incompatible_ip = negsuc 1

-- HW_LOOPBACK_PARAM and MGMT_SUPPORT_PARAM, with the lengths that the code compares.
abbrev pub hw_loopback_param : List ℕ
hw_loopback_param = literal "#HW_LOOPBACK"

abbrev pub hw_loopback_param_len : ℕ
hw_loopback_param_len = 13

abbrev pub mgmt_support_param : List ℕ
mgmt_support_param = literal "MGMT_SUPPORT"

abbrev pub mgmt_support_param_len : ℕ
mgmt_support_param_len = 13

-- A complement in 32 bits.
abbrev not_32 : ℕ → ℕ
not_32 n = 2 ^ 32 - 1 - n

unfoldable pub set_design_info : {X : Type 0} → DesignInfo → Device X → Device X
set_design_info info d = record d {
  drv = record (d.drv) { std_dbg_ip_info = info; dbg_info_set = true };
}

module _ {X : Type 0} (m : Mmio X) where
  -- fpga_read_32 and fpga_write_32 through g_mmio_handle.
  abbrev read_config : Run (Device X) ℕ
  read_config d =
      let (rd, hw) = m.read_32 d.drv.mmio_handle Reg.config_reset_and_loopback d.hw in
      some (rd, record d { hw = hw })

  abbrev write_config : ℕ → Run (Device X) (Unit {0})
  write_config v d =
      some (tt, record d { hw = m.write_32 d.drv.mmio_handle Reg.config_reset_and_loopback v d.hw })

  unfoldable pub set_loopback_mode : ℕ → Run (Device X) (Unit {0})
  set_loopback_mode val = do
    rd ← read_config
    if val == 1
        then write_config (bit_or (bit_or rd loopback_field) h2t_t2h_reset_field)
        else write_config (bit_or (bit_and rd (not_32 loopback_field)) h2t_t2h_reset_field)

  unfoldable pub get_loopback_mode : Run (Device X) ℕ
  get_loopback_mode = do rd ← read_config; pure (if ltb 0 (bit_and rd loopback_field) then 1 else 0)

  unfoldable pub enable_interrupts : ℕ → Run (Device X) (Unit {0})
  enable_interrupts val = do
    rd ← read_config
    if val == 1
        then write_config (bit_or rd enable_int_field)
        else write_config (bit_and rd (not_32 enable_int_field))

  unfoldable pub get_mgmt_support : Run (Device X) ℕ
  get_mgmt_support d =
      let (rd, hw) = m.read_32 d.drv.mmio_handle Reg.config_mgmt_mgmt_rsp_desc_depth d.hw in
      some ((if ltb 0 rd then 1 else 0), record d { hw = hw })

  unfoldable pub check_version_and_type : Run (Device X) ℤ
  check_version_and_type d =
      let (type_version, hw) = m.read_64 d.drv.mmio_handle Reg.config_type d.hw in
      some (
        (if (u32 type_version == supported_type) && (u32 (shr type_version 32) == supported_version)
            then pos 0
            else negsuc 0),
        record d { hw = hw },
      )

  unfoldable pub assert_h2t_t2h_reset : Run (Device X) (Unit {0})
  assert_h2t_t2h_reset = write_config h2t_t2h_reset_field

  -- The assignments of `init_driver` behind its two checks. `context->mmio_handle` gets the value
  -- that it already has, since the server passes that field as the handle.
  unfoldable pub reset_driver : (h2t_slots mgmt_slots : ℕ) → Driver → Driver
  reset_driver h2t_slots mgmt_slots drv =
      let info = drv.std_dbg_ip_info in
      let h2t = drv.h2t in
      let mgmt = drv.mgmt in
      record drv {
        h2t = record h2t {
          write_idx = 0;
          read_idx = 0;
          slots_available = u16 h2t_slots;
          rx_cbuff = cbuff_init info.h2t_mem_base_addr info.h2t_mem_sz;
        };
        mgmt = record mgmt {
          write_idx = 0;
          read_idx = 0;
          slots_available = u16 mgmt_slots;
          rx_cbuff = cbuff_init info.mgmt_mem_base_addr info.mgmt_mem_sz;
        };
        t2h_sop = true;
        mgmt_rsp_sop = true;
      }

  unfoldable pub after_checks : Run (Device X) ℤ
  unfolding reset_driver assert_h2t_t2h_reset
  after_checks = do
    assert_h2t_t2h_reset
    λ d.
        let (h2t_slots, hw) = m.read_32 d.drv.mmio_handle Reg.h2t_available_slots d.hw in
        let (mgmt_slots, hw') = m.read_32 d.drv.mmio_handle Reg.mgmt_available_slots hw in
        some (pos 0, record { drv = reset_driver h2t_slots mgmt_slots d.drv; hw = hw' })

  unfoldable pub init_driver : (mmio_handle : ℤ) → Run (Device X) ℤ
  unfolding after_checks check_version_and_type
  init_driver mmio_handle d =
      let d' = record d { drv = record (d.drv) { mmio_handle = mmio_handle } } in
      if not d'.drv.dbg_info_set
      then some (missing_info, d')
      else elim (check_version_and_type d') [
        | none ↦ none
        | some (pos zero, e) ↦ after_checks e
        | some (_, e) ↦ some (incompatible_ip, e)
      ]

  -- The result is always 0.
  unfoldable pub set_driver_param : (param val : List ℕ) → Run (Device X) ℤ
  unfolding set_loopback_mode
  set_driver_param param val d = elim (strncmp_eq param hw_loopback_param hw_loopback_param_len) [
    | none ↦ none
    | some false ↦ some (pos 0, d)
    | some true ↦ elim (strncmp_eq val (literal "1") 1) [
      | none ↦ none
      | some on ↦ (do set_loopback_mode (if on then 1 else 0); pure (pos 0)) d
    ]
  ]

  -- `none` inside the result is NULL.
  unfoldable pub get_driver_param : (param : List ℕ) → Run (Device X) (Option (List ℕ))
  unfolding get_loopback_mode get_mgmt_support
  get_driver_param param d = elim (strncmp_eq param hw_loopback_param hw_loopback_param_len) [
    | none ↦ none
    | some true ↦
        (do val ← get_loopback_mode; pure (some (if val == 0 then literal "0" else literal "1"))) d
    | some false ↦ elim (strncmp_eq param mgmt_support_param mgmt_support_param_len) [
      | none ↦ none
      | some true ↦
          (do val ← get_mgmt_support; pure (some (if val == 1 then literal "1" else literal "0"))) d
      | some false ↦ some (none, d)
    ]
  ]
