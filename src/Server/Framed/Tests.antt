-- ===== src/Server/Framed/Tests.antt =====
-- The server behind initialize_server, and behind its first packet.
use remote_debug_for_intel_f.Prelude.{ℕ, ◌≡◌, refl, true, false, [], ◌++◌, none, some, replicate}
use remote_debug_for_intel_f.Prelude.Int.{pos}
use remote_debug_for_intel_f.Packet.{packet_guardband, populate_guardband}
use remote_debug_for_intel_f.Mmio.{Mmio}
use remote_debug_for_intel_f.Os.Wire.{Wire, wire}
use remote_debug_for_intel_f.Driver.{initial_driver}
use remote_debug_for_intel_f.Sockets.{ok, set_boolean_socket_option}
use remote_debug_for_intel_f.Server.{ServerBuffers, World}
use remote_debug_for_intel_f.Server.Connect.{bind_server_socket, configure_server_socket}
use remote_debug_for_intel_f.Server.Loop.{initialize_server, listen_on}
use remote_debug_for_intel_f.Server.Framed.{IsFramed}
use remote_debug_for_intel_f.Server.Framed.Reachable.{HasHeaders, initialized, Reachable-IsFramed}
use remote_debug_for_intel_f.StreamDbg.{
  get_design_info, start_buffers, start_conn, get_hw_callbacks,
}

abbrev still : Mmio ℕ
still = record {
  read_32 = λ h r x. (0, x);
  write_32 = λ h r v x. x;
  read_64 = λ h r x. (0, x);
  write_64 = λ h r v x. x;
}

abbrev start : ServerBuffers
start = start_buffers (get_design_info 1024) (replicate 512 0) (replicate 512 0)

abbrev world : World Wire ℕ
world = record {
  conn = start_conn start (get_hw_callbacks still true);
  recv_buff = none;
  send_buff = none;
  os = record { incoming = []; outgoing = [] };
  dev = record { drv = initial_driver; hw = 0 };
  terminate_ptr = false;
}

abbrev listening : World Wire ℕ
listening = record world {
  conn = record (world.conn) {
    buff = record (world.conn.buff) {
      mgmt_rsp_header_buff = packet_guardband ++ replicate 6 0;
      t2h_header_buff = packet_guardband ++ replicate 6 0;
    };
    server_fd = pos 3;
    server_port = 80;
  };
}

start-HasHeaders : HasHeaders start
unfolding start_buffers
start-HasHeaders = record { t2h = refl; mgmt_rsp = refl; h2t = refl; mgmt = refl }

listening_returned : initialize_server wire still 80 [] world ≡ some (ok, listening)
unfolding initialize_server listen_on bind_server_socket configure_server_socket populate_guardband
    set_boolean_socket_option start_buffers
listening_returned = refl

Reachable-IsFramed_example : IsFramed start listening.conn.buff
unfolding start_buffers
Reachable-IsFramed_example =
    Reachable-IsFramed wire still start listening start-HasHeaders
      (initialized 80 [] world refl listening_returned)
