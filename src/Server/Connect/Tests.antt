-- ===== src/Server/Connect/Tests.antt =====
-- A client that names the handle 7 of the control socket, and already sends more behind it.
use remote_debug_for_intel_f.Prelude.{
  ℕ, ◌≡◌, refl, true, List, [], ◌∷◌, ◌++◌, Option, none, some, arith, replicate,
}
use remote_debug_for_intel_f.Prelude.Int.{pos}
use remote_debug_for_intel_f.CString.{literal, strnlen, strncmp_eq}
use remote_debug_for_intel_f.CString.Decimal.{decimal, digits_onto, snprintf}
use remote_debug_for_intel_f.Mmio.{Mmio}
use remote_debug_for_intel_f.Os.Wire.{Wire, wire, wire-IsStream, wire-KeepsSent}
use remote_debug_for_intel_f.Driver.{initial_driver}
use remote_debug_for_intel_f.Server.{
  World, ClientConn, client_conn_default, server_hw_callbacks_default,
}
use remote_debug_for_intel_f.Server.Message
use remote_debug_for_intel_f.Server.Connect.{
  acknowledge_handle, connect_client, connect_sockets, connect_ctrl, connect_client_socket,
}
use remote_debug_for_intel_f.Server.Connect.Order.{Outcome, connect_client-Outcome}
use remote_debug_for_intel_f.Server.Keeps.{world_of}
use remote_debug_for_intel_f.Common.{get_random_id, generate_expected_handle_message}
use remote_debug_for_intel_f.Sockets.{
  ReturnCode, ok, null_loop, send_loop, socket_recv_until_null_reached, socket_send_all,
  set_tcp_no_delay,
}
use remote_debug_for_intel_f.Server.Connect.Handle.{
  HasRoom, Acknowledged, handle_text, acknowledge_handle-Acknowledged,
}
use remote_debug_for_intel_f.StreamDbg.{
  get_design_info, start_buffers, start_conn, get_hw_callbacks,
}

abbrev still : Mmio ℕ
still = record {
  read_32 = λ h r x. (0, x);
  write_32 = λ h r v x. x;
  read_64 = λ h r x. (0, x);
  write_64 = λ h r v x. x;
}

abbrev world : World Wire ℕ
world = record {
  conn =
      start_conn (start_buffers (get_design_info 1024) (replicate 512 0) (replicate 512 0))
        (get_hw_callbacks still true);
  recv_buff = none;
  send_buff = none;
  os = record { incoming = literal "Control HANDLE=7" ++ (9 ∷ []); outgoing = 9 ∷ [] };
  dev = record { drv = initial_driver; hw = 0 };
  terminate_ptr = true;
}

world-HasRoom : HasRoom wire-IsStream (pos 4) Message.control_sock_name 7 world
unfolding start_buffers decimal
world-HasRoom = record {
  text = refl;
  short = omega arith;
  fits = omega arith;
  tx = omega arith;
  rx = omega arith;
}

acknowledge_handle-Acknowledged_example :
    Acknowledged wire-IsStream
      (pos 4)
      (handle_text Message.control_sock_name 7)
      world
      (acknowledge_handle wire (pos 4) Message.control_sock_name 7 world)
acknowledge_handle-Acknowledged_example =
    acknowledge_handle-Acknowledged wire-IsStream (pos 4) Message.control_sock_name 7 wire-KeepsSent
      world world-HasRoom

-- Five acknowledgements of the handle 1. `recv` gives three bytes at a time, and what comes behind a NUL
-- is dropped, so that each of them is filled up to whole threes.
abbrev greeting : List ℕ
greeting =
    literal "Control HANDLE=1"
    ++ (9
        ∷ (literal "Management HANDLE=1"
            ++ (9
                ∷ (literal "Management Response HANDLE=1"
                    ++ (9 ∷ (literal "H2T HANDLE=1" ++ (9 ∷ 9 ∷ literal "T2H HANDLE=1")))))))

abbrev waiting : World Wire ℕ
waiting = record world {
  conn = record (world.conn) { hw_callbacks = server_hw_callbacks_default };
  os = record { incoming = greeting; outgoing = [] };
}

abbrev connected : ClientConn
connected = record {
  ctrl_fd = pos 4;
  mgmt_fd = pos 4;
  mgmt_rsp_fd = pos 4;
  h2t_data_fd = pos 4;
  t2h_data_fd = pos 4;
}

abbrev ended : Option ((ReturnCode × ClientConn) × World Wire ℕ)
ended = connect_client wire 1 (pos 0) client_conn_default waiting

ended_ok : ended ≡ some ((ok, connected), world_of waiting ended)
unfolding connect_client connect_sockets connect_ctrl connect_client_socket acknowledge_handle
    start_buffers decimal get_random_id null_loop send_loop socket_recv_until_null_reached
    socket_send_all set_tcp_no_delay strnlen strncmp_eq snprintf generate_expected_handle_message
    digits_onto Message.generate_server_welcome_message get_design_info
ended_ok = refl

connect_client-Outcome_example : Outcome client_conn_default (ok, connected)
connect_client-Outcome_example =
    connect_client-Outcome wire 1 (pos 0) client_conn_default waiting (ok, connected)
      (world_of waiting ended) ended_ok
