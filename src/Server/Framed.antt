-- ===== src/Server/Framed.antt =====
-- What every function behind handle_client of streaming/src/intel_st_debug_if_server.c leaves of the
-- buffers.
pub mod Commands
pub mod Data
pub mod Frames
pub mod Mgmt
pub mod Rounds
pub mod Life
pub mod Reachable
mod Tests
use remote_debug_for_intel_f.Prelude.{
  ℕ, ◌∙◌, arith, ◌≡◌, refl, inl, inr, Bool, true, false, List, Option, none, some, Run, ◌>>=◌, ◌>>◌,
  pure, length,
}
use remote_debug_for_intel_f.Prelude.Int.{ℤ}
use remote_debug_for_intel_f.CString.{strstr}
use remote_debug_for_intel_f.Mmio.{Mmio}
use remote_debug_for_intel_f.Os.{Os}
use remote_debug_for_intel_f.Server.{ServerBuffers, World, ClientConn, set_buff, set_conn}
use remote_debug_for_intel_f.Server.Keeps.{
  Keeps, Keeps-from, keeps_rules, Keeps-elim, Keeps-bind, Keeps-pure, Keeps-fault, Keeps-string,
  Keeps-set_buff, Keeps-set_conn,
}
use remote_debug_for_intel_f.Server.H2t.{header_bytes}
use remote_debug_for_intel_f.Server.T2h.Guardband.{HasGuardband}
use remote_debug_for_intel_f.Server.Message
use remote_debug_for_intel_f.Server.Params.{
  get_parameter, set_parameter, get_driver_parameter, set_driver_parameter, set_nagle, set_loopback,
  ask_driver, tell_driver, set_found,
}
use remote_debug_for_intel_f.Server.Control.{process_control_message}
use remote_debug_for_intel_f.Server.Connect.{reject_client}

-- The memories of `start` with headers in their place: a guard band and a header in the two buffers
-- that go out, room for them in the two that come in.
pub record IsFramed (start b : ServerBuffers) : Type 0 where
  pub t2h : HasGuardband b.t2h_header_buff
  pub mgmt_rsp : HasGuardband b.mgmt_rsp_header_buff
  pub h2t : length b.h2t_header_buff ≡ header_bytes
  pub mgmt : length b.mgmt_header_buff ≡ header_bytes
  pub wrapping : b.use_wrapping_data_buffers ≡ start.use_wrapping_data_buffers
  pub h2t_rx_buff : b.h2t_rx_buff ≡ start.h2t_rx_buff
  pub h2t_rx_buff_sz : b.h2t_rx_buff_sz ≡ start.h2t_rx_buff_sz
  pub t2h_tx_buff : b.t2h_tx_buff ≡ start.t2h_tx_buff
  pub t2h_tx_buff_sz : b.t2h_tx_buff_sz ≡ start.t2h_tx_buff_sz

-- The buffers with other bytes in one of the four header buffers.
module _ (start b : ServerBuffers) (h : IsFramed start b) (bytes : List ℕ) where
  pub h2t-IsFramed :
      length bytes ≡ length b.h2t_header_buff
      → IsFramed start (record b { h2t_header_buff = bytes })
  h2t-IsFramed l = record {
    t2h = h.t2h;
    mgmt_rsp = h.mgmt_rsp;
    h2t = l ∙ h.h2t;
    mgmt = h.mgmt;
    wrapping = h.wrapping;
    h2t_rx_buff = h.h2t_rx_buff;
    h2t_rx_buff_sz = h.h2t_rx_buff_sz;
    t2h_tx_buff = h.t2h_tx_buff;
    t2h_tx_buff_sz = h.t2h_tx_buff_sz;
  }

  pub mgmt-IsFramed :
      length bytes ≡ length b.mgmt_header_buff
      → IsFramed start (record b { mgmt_header_buff = bytes })
  mgmt-IsFramed l = record {
    t2h = h.t2h;
    mgmt_rsp = h.mgmt_rsp;
    h2t = h.h2t;
    mgmt = l ∙ h.mgmt;
    wrapping = h.wrapping;
    h2t_rx_buff = h.h2t_rx_buff;
    h2t_rx_buff_sz = h.h2t_rx_buff_sz;
    t2h_tx_buff = h.t2h_tx_buff;
    t2h_tx_buff_sz = h.t2h_tx_buff_sz;
  }

  pub t2h-IsFramed : HasGuardband bytes → IsFramed start (record b { t2h_header_buff = bytes })
  t2h-IsFramed g = record {
    t2h = g;
    mgmt_rsp = h.mgmt_rsp;
    h2t = h.h2t;
    mgmt = h.mgmt;
    wrapping = h.wrapping;
    h2t_rx_buff = h.h2t_rx_buff;
    h2t_rx_buff_sz = h.h2t_rx_buff_sz;
    t2h_tx_buff = h.t2h_tx_buff;
    t2h_tx_buff_sz = h.t2h_tx_buff_sz;
  }

  pub mgmt_rsp-IsFramed :
      HasGuardband bytes → IsFramed start (record b { mgmt_rsp_header_buff = bytes })
  mgmt_rsp-IsFramed g = record {
    t2h = h.t2h;
    mgmt_rsp = g;
    h2t = h.h2t;
    mgmt = h.mgmt;
    wrapping = h.wrapping;
    h2t_rx_buff = h.h2t_rx_buff;
    h2t_rx_buff_sz = h.h2t_rx_buff_sz;
    t2h_tx_buff = h.t2h_tx_buff;
    t2h_tx_buff_sz = h.t2h_tx_buff_sz;
  }
