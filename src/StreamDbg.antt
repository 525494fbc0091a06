-- ===== src/StreamDbg.antt =====
-- streaming/src/intel_st_debug_if_stream_dbg.c: the design information, the callbacks, and the start
-- and end of the server. ENABLE_MGMT is 0, as streaming/inc/intel_st_debug_if_platform.h has it.
pub mod Design
pub mod Ready
mod Tests
use remote_debug_for_intel_f.Prelude.{
  ℕ, ◌+◌, ◌*◌, Bool, true, false, List, [], Option, none, some, Run, ◌>>=◌, ◌>>◌, pure, get,
  replicate, u16, u32, u64, ltb, if◌then◌else◌,
}
use remote_debug_for_intel_f.Prelude.Int.{ℤ, minus_one, pos}
use remote_debug_for_intel_f.CString.{codes}
use remote_debug_for_intel_f.Mmio.{Mmio}
use remote_debug_for_intel_f.Os.{Os}
use remote_debug_for_intel_f.Driver.{DesignInfo, Device}
use remote_debug_for_intel_f.Driver.Slots.{get_h2t_buffer}
use remote_debug_for_intel_f.Driver.Data.{push_h2t_data, get_t2h_data, t2h_data_complete}
use remote_debug_for_intel_f.Driver.Control.{
  init_driver, set_driver_param, get_driver_param, get_mgmt_support, set_design_info,
}
use remote_debug_for_intel_f.Sockets.{ReturnCode, ok}
use remote_debug_for_intel_f.Server.{
  HwCallbacks, ServerBuffers, ServerConn, World, multiple_clients, invalid_socket,
  server_pkt_stats_default, server_buffers_default, server_hw_callbacks_default,
}
use remote_debug_for_intel_f.Server.H2t.{is_ok}
use remote_debug_for_intel_f.Server.Loop.{initialize_server, server_main, server_terminate}

-- JOP_MEM_SIZE_2K, H2T_MEM_BASE_2K and T2H_MEM_BASE_4K
abbrev pub jop_mem_size_2_k : ℕ
jop_mem_size_2_k = 2048

abbrev pub h2t_mem_base_2_k : ℕ
h2t_mem_base_2_k = 0x800

abbrev pub t2h_mem_base_4_k : ℕ
t2h_mem_base_4_k = 0x1000

abbrev ctrl_buff_sz : ℕ
ctrl_buff_sz = 512

unfoldable pub get_design_info : (h2t_t2h_mem_size : ℕ) → DesignInfo
get_design_info h2t_t2h_mem_size =
    let large = ltb jop_mem_size_2_k h2t_t2h_mem_size in
    record {
      csr_base_addr = 0;
      h2t_mem_base_addr = if large then u32 h2t_t2h_mem_size else h2t_mem_base_2_k;
      h2t_mem_sz = h2t_t2h_mem_size;
      t2h_mem_base_addr = if large then u32 (u64 (2 * h2t_t2h_mem_size)) else t2h_mem_base_4_k;
      t2h_mem_sz = h2t_t2h_mem_size;
      mgmt_mem_base_addr = 0;
      mgmt_mem_sz = 0;
      mgmt_rsp_mem_base_addr = 0;
      mgmt_rsp_mem_sz = 0;
    }

unfoldable pub get_hw_callbacks : {X : Type 0} → Mmio X → (char_is_signed : Bool) → HwCallbacks X
get_hw_callbacks m char_is_signed = record server_hw_callbacks_default {
  init_driver = some (init_driver m);
  get_h2t_buffer = some (get_h2t_buffer m char_is_signed);
  h2t_data_received = some (push_h2t_data m);
  acquire_t2h_data = some (get_t2h_data m);
  t2h_data_complete = some (t2h_data_complete m);
  has_mgmt_support = some (get_mgmt_support m);
  set_param = some (set_driver_param m);
  get_param = some (get_driver_param m);
}

-- The buffers of `start_st_dbg_transport_server_over_tcpip`: the two control buffers are globals that
-- outlive a run, the header buffers are new.
unfoldable pub start_buffers : DesignInfo → (ctrl_rx_buff ctrl_tx_buff : List ℕ) → ServerBuffers
start_buffers design_info ctrl_rx_buff ctrl_tx_buff = record server_buffers_default {
  ctrl_rx_buff = ctrl_rx_buff;
  ctrl_rx_buff_sz = ctrl_buff_sz;
  ctrl_tx_buff = ctrl_tx_buff;
  ctrl_tx_buff_sz = ctrl_buff_sz;
  use_wrapping_data_buffers = true;
  h2t_rx_buff = design_info.h2t_mem_base_addr;
  h2t_rx_buff_sz = design_info.h2t_mem_sz;
  mgmt_rx_buff = design_info.mgmt_mem_base_addr;
  mgmt_rx_buff_sz = design_info.mgmt_mem_sz;
  t2h_tx_buff = design_info.t2h_mem_base_addr;
  t2h_tx_buff_sz = design_info.t2h_mem_sz;
  mgmt_rsp_tx_buff = design_info.mgmt_rsp_mem_base_addr;
  mgmt_rsp_tx_buff_sz = design_info.mgmt_rsp_mem_sz;
}

-- SERVER_CONN_default with the buffers and the callbacks.
abbrev pub start_conn : {X : Type 0} → ServerBuffers → HwCallbacks X → ServerConn X
start_conn buffers callbacks = record {
  buff = buffers;
  h2t_waiting = false;
  mgmt_waiting = false;
  hw_callbacks = callbacks;
  loopback_mode = false;
  server_fd = invalid_socket;
  server_port = 0;
  t2h_nagle = false;
  mgmt_rsp_nagle = false;
  pkt_stats = server_pkt_stats_default;
}

-- intel_remote_debug_server_context, with the handle of its driver context.
pub record IntelRemoteDebugServerContext : Type 0 where
  pub mmio_handle : ℤ
  pub port : ℕ
  pub h2t_t2h_mem_size : ℕ

-- The three fields are all that the context has, so what it held before is not an argument.
unfoldable pub init_st_dbg_transport_server_over_tcpip :
    (mmio_handle : ℤ) (size port : ℕ) → IntelRemoteDebugServerContext
init_st_dbg_transport_server_over_tcpip mmio_handle size port = record {
  mmio_handle = mmio_handle;
  port = port;
  h2t_t2h_mem_size = size;
}

module _ {N X : Type 0} (os : Os N) (m : Mmio X) (char_is_signed : Bool) where
  -- The world goes in with the control buffers of the run before. The result is what `server_main`
  -- answers, or none where the server is not initialised (-1).
  unfoldable pub start_st_dbg_transport_server_over_tcpip :
      (fuel rounds draws : ℕ) (context : IntelRemoteDebugServerContext)
      → Run (World N X) (Option ReturnCode)
  start_st_dbg_transport_server_over_tcpip fuel rounds draws context = do
    let design_info = get_design_info context.h2t_t2h_mem_size
    λ w. some (
      tt,
      record w {
        dev = set_design_info design_info w.dev;
        conn =
            start_conn (start_buffers design_info w.conn.buff.ctrl_rx_buff w.conn.buff.ctrl_tx_buff)
              (get_hw_callbacks m char_is_signed);
      },
    )
    initialized ←
        initialize_server os m (u16 context.port) (codes ".intel_reserved_debug_server.port")
    if is_ok initialized
        then (do
          rc ←
              server_main os m fuel rounds draws context.h2t_t2h_mem_size context.mmio_handle
                multiple_clients
          pure (some rc))
        else pure none

  unfoldable pub terminate_st_dbg_transport_server_over_tcpip : Run (World N X) (Unit {0})
  terminate_st_dbg_transport_server_over_tcpip = server_terminate os m
