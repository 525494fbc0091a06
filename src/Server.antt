-- ===== src/Server.antt =====
-- The state of the server, streaming/src/intel_st_debug_if_server.c and its header, and the constants
-- of streaming/src/intel_st_debug_if_constants.c. The functions are in the modules below.
pub mod Message
pub mod Wrap
pub mod H2t
pub mod Mgmt
pub mod T2h
pub mod Params
pub mod Control
pub mod Connect
pub mod Loop
pub mod Keeps
pub mod Framed
pub mod Terminate
mod Tests
use remote_debug_for_intel_f.Prelude.{
  ℕ, ◌+◌, Bool, true, false, List, [], Option, none, some, Run, replicate, length, sub64, leb, take,
  drop, ◌++◌, if◌then◌else◌,
}
use remote_debug_for_intel_f.Prelude.Int.{ℤ, minus_one}
use remote_debug_for_intel_f.Common.{zero_mem}
use remote_debug_for_intel_f.Packet.{H2tPacketHeader, MgmtPacketHeader}
use remote_debug_for_intel_f.Os.{Os}
use remote_debug_for_intel_f.Driver.{Device}

-- INVALID_SOCKET
abbrev pub invalid_socket : ℤ
invalid_socket = minus_one

-- SERVER_LIFESPAN
pub data ServerLifespan : Type 0 where
  single_client multiple_clients : ServerLifespan

-- SERVER_BUFFERS. The control and header buffers are byte arrays of the host; the four data buffers
-- are address ranges of the hardware.
pub record ServerBuffers : Type 0 where
  pub ctrl_rx_buff : List ℕ
  pub ctrl_rx_buff_sz : ℕ
  pub ctrl_tx_buff : List ℕ
  pub ctrl_tx_buff_sz : ℕ
  pub h2t_header_buff : List ℕ
  pub t2h_header_buff : List ℕ
  pub mgmt_header_buff : List ℕ
  pub mgmt_rsp_header_buff : List ℕ
  pub use_wrapping_data_buffers : Bool
  pub h2t_rx_buff : ℕ
  pub h2t_rx_buff_sz : ℕ
  pub mgmt_rx_buff : ℕ
  pub mgmt_rx_buff_sz : ℕ
  pub t2h_tx_buff : ℕ
  pub t2h_tx_buff_sz : ℕ
  pub mgmt_rsp_tx_buff : ℕ
  pub mgmt_rsp_tx_buff_sz : ℕ

-- Nothing where a buffer is NULL; the four header buffers are part of the struct, and zeroed.
abbrev pub server_buffers_default : ServerBuffers
server_buffers_default = record {
  ctrl_rx_buff = [];
  ctrl_rx_buff_sz = 0;
  ctrl_tx_buff = [];
  ctrl_tx_buff_sz = 0;
  h2t_header_buff = replicate 10 0;
  t2h_header_buff = replicate 10 0;
  mgmt_header_buff = replicate 10 0;
  mgmt_rsp_header_buff = replicate 10 0;
  use_wrapping_data_buffers = false;
  h2t_rx_buff = 0;
  h2t_rx_buff_sz = 0;
  mgmt_rx_buff = 0;
  mgmt_rx_buff_sz = 0;
  t2h_tx_buff = 0;
  t2h_tx_buff_sz = 0;
  mgmt_rsp_tx_buff = 0;
  mgmt_rsp_tx_buff_sz = 0;
}

-- SERVER_HW_CALLBACKS: a function pointer may be NULL. What goes through a pointer argument is
-- returned.
pub record HwCallbacks (X : Type 0) : Type 0 where
  pub init_driver : Option (ℤ → Run (Device X) ℤ)
  pub get_h2t_buffer : Option (ℕ → Run (Device X) ℕ)
  pub h2t_data_received : Option (H2tPacketHeader → ℕ → Run (Device X) ℤ)
  pub get_mgmt_buffer : Option (ℕ → Run (Device X) ℕ)
  pub mgmt_data_received : Option (MgmtPacketHeader → ℕ → Run (Device X) ℤ)
  pub acquire_t2h_data : Option (H2tPacketHeader → ℕ → Run (Device X) (ℤ × H2tPacketHeader × ℕ))
  pub t2h_data_complete : Option (Run (Device X) (Unit {0}))
  pub acquire_mgmt_rsp_data :
      Option (MgmtPacketHeader → ℕ → Run (Device X) (ℤ × MgmtPacketHeader × ℕ))
  pub mgmt_rsp_data_complete : Option (Run (Device X) (Unit {0}))
  pub has_mgmt_support : Option (Run (Device X) ℕ)
  pub set_param : Option (List ℕ → List ℕ → Run (Device X) ℤ)
  pub get_param : Option (List ℕ → Run (Device X) (Option (List ℕ)))

abbrev pub server_hw_callbacks_default : {X : Type 0} → HwCallbacks X
server_hw_callbacks_default = record {
  init_driver = none;
  get_h2t_buffer = none;
  h2t_data_received = none;
  get_mgmt_buffer = none;
  mgmt_data_received = none;
  acquire_t2h_data = none;
  t2h_data_complete = none;
  acquire_mgmt_rsp_data = none;
  mgmt_rsp_data_complete = none;
  has_mgmt_support = none;
  set_param = none;
  get_param = none;
}

-- SERVER_PKT_STATS
pub record ServerPktStats : Type 0 where
  pub h2t_cnt : ℕ
  pub t2h_cnt : ℕ
  pub mgmt_cnt : ℕ
  pub mgmt_rsp_cnt : ℕ

abbrev pub server_pkt_stats_default : ServerPktStats
server_pkt_stats_default = record { h2t_cnt = 0; t2h_cnt = 0; mgmt_cnt = 0; mgmt_rsp_cnt = 0 }

-- SERVER_CONN, with the buffers that it points to. Of `server_addr` only the port is kept.
pub record ServerConn (X : Type 0) : Type 0 where
  pub buff : ServerBuffers
  pub h2t_waiting : Bool
  pub mgmt_waiting : Bool
  pub hw_callbacks : HwCallbacks X
  pub loopback_mode : Bool
  pub server_fd : ℤ
  pub server_port : ℕ
  pub t2h_nagle : Bool
  pub mgmt_rsp_nagle : Bool
  pub pkt_stats : ServerPktStats

-- CLIENT_CONN
pub record ClientConn : Type 0 where
  pub ctrl_fd : ℤ
  pub mgmt_fd : ℤ
  pub mgmt_rsp_fd : ℤ
  pub h2t_data_fd : ℤ
  pub t2h_data_fd : ℤ

abbrev pub client_conn_default : ClientConn
client_conn_default = record {
  ctrl_fd = invalid_socket;
  mgmt_fd = invalid_socket;
  mgmt_rsp_fd = invalid_socket;
  h2t_data_fd = invalid_socket;
  t2h_data_fd = invalid_socket;
}

-- All that a function of the server can change: its connection, `g_socket_recv_buff` and
-- `g_socket_send_buff` (`none` is NULL), the system, the device with its driver, and whether
-- `s_server_conn_ptr`, which only ever points to the one connection, is set.
pub record World (N X : Type 0) : Type 0 where
  pub conn : ServerConn X
  pub recv_buff : Option (List ℕ)
  pub send_buff : Option (List ℕ)
  pub os : N
  pub dev : Device X
  pub terminate_ptr : Bool

module _ {N X : Type 0} where
  abbrev pub on_os : {A : Type 0} → Run N A → Run (World N X) A
  on_os f w = elim (f w.os) [ none ↦ none | some (a, s) ↦ some (a, record w { os = s }) ]

  abbrev pub on_dev : {A : Type 0} → Run (Device X) A → Run (World N X) A
  on_dev f w = elim (f w.dev) [ none ↦ none | some (a, d) ↦ some (a, record w { dev = d }) ]

  abbrev pub set_conn : (ServerConn X → ServerConn X) → Run (World N X) (Unit {0})
  set_conn f w = some (tt, record w { conn = f w.conn })

  abbrev pub set_buff : (ServerBuffers → ServerBuffers) → Run (World N X) (Unit {0})
  set_buff f w = some (tt, record w { conn = record (w.conn) { buff = f w.conn.buff } })

  abbrev pub read_conn : {A : Type 0} → (ServerConn X → A) → Run (World N X) A
  read_conn f w = some (f w.conn, w)

  abbrev pub read_buff : {A : Type 0} → (ServerBuffers → A) → Run (World N X) A
  read_buff f w = some (f w.conn.buff, w)

  unfoldable pub reset_buffers : Run (World N X) (Unit {0})
  reset_buffers w = elim (zero_mem w.conn.buff.ctrl_rx_buff w.conn.buff.ctrl_rx_buff_sz) [
    | none ↦ none
    | some rx ↦ elim (zero_mem w.conn.buff.ctrl_tx_buff w.conn.buff.ctrl_tx_buff_sz) [
      | none ↦ none
      | some tx ↦ set_buff (λ b. record b { ctrl_rx_buff = rx; ctrl_tx_buff = tx }) w
    ]
  ]
