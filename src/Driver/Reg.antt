-- ===== src/Driver/Reg.antt =====
-- The register offsets of streaming/inc/intel_st_debug_if_st_dbg_ip_driver.h, ST_DBG_IP_...
use remote_debug_for_intel_f.Prelude.{ℕ}

abbrev pub config_type : ℕ
config_type = 0x0

abbrev pub config_reset_and_loopback : ℕ
config_reset_and_loopback = 0x20

abbrev pub config_mgmt_mgmt_rsp_desc_depth : ℕ
config_mgmt_mgmt_rsp_desc_depth = 0x30

abbrev pub h2t_available_slots : ℕ
h2t_available_slots = 0x100

abbrev pub h2t_how_long : ℕ
h2t_how_long = 0x108

abbrev pub h2t_connection_id : ℕ
h2t_connection_id = 0x110

abbrev pub t2h_how_long : ℕ
t2h_how_long = 0x208

abbrev pub t2h_connection_id : ℕ
t2h_connection_id = 0x210

abbrev pub t2h_descriptors_done : ℕ
t2h_descriptors_done = 0x218

abbrev pub mgmt_available_slots : ℕ
mgmt_available_slots = 0x1100

abbrev pub mgmt_how_long : ℕ
mgmt_how_long = 0x1108

abbrev pub mgmt_channel_id_push : ℕ
mgmt_channel_id_push = 0x1114

abbrev pub mgmt_rsp_how_long : ℕ
mgmt_rsp_how_long = 0x1208

abbrev pub mgmt_rsp_channel_id_advance : ℕ
mgmt_rsp_channel_id_advance = 0x1214

abbrev pub mgmt_rsp_descriptors_done : ℕ
mgmt_rsp_descriptors_done = 0x1218
