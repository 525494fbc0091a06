-- ===== src/Server/Tests.antt =====
-- The server theorems at a connection with one packet under way, whose buffer is free at the second
-- try.
use remote_debug_for_intel_f.Prelude.{
  ℕ, zero, suc, ◌+◌, ◌≤◌, ◌<◌, ◌≡◌, ◌⊎◌, refl, length, false, true, List, [], ◌∷◌, ◌++◌, some,
  arith, Run, replicate, sub64,
}
use remote_debug_for_intel_f.Prelude.Int.{pos}
use remote_debug_for_intel_f.Packet.{h2t_header_at, sizeof_packet_guardband}
use remote_debug_for_intel_f.Mmio.{Mmio}
use remote_debug_for_intel_f.Os.Wire.{Wire, wire, wire-IsStream}
use remote_debug_for_intel_f.Driver.{Device, initial_driver}
use remote_debug_for_intel_f.Sockets.{ok, recv_loop, socket_recv_accumulate}
use remote_debug_for_intel_f.Server.{
  ClientConn, HwCallbacks, World, client_conn_default, server_pkt_stats_default,
}
use remote_debug_for_intel_f.Server.Wrap.{buff_len_to_wrap_boundary}
use remote_debug_for_intel_f.Server.Wrap.Split.{buff_len_to_wrap_boundary_lem}
use remote_debug_for_intel_f.Server.H2t.{accept_h2t, process_h2t_data, push_h2t}
use remote_debug_for_intel_f.Server.H2t.Waiting.{put_off, process_h2t_data-takes_up}
use remote_debug_for_intel_f.CString.{literal}
use remote_debug_for_intel_f.Server.Message
use remote_debug_for_intel_f.Server.Params.{get_parameter, set_parameter}
use remote_debug_for_intel_f.Server.Params.Loopback.{
  set_loopback_cmd, get_loopback_cmd, get_parameter-set_parameter,
}
use remote_debug_for_intel_f.Server.H2t.Faults.{accept_h2t-unreceived}
use remote_debug_for_intel_f.StreamDbg.{
  get_design_info, start_buffers, start_conn, get_hw_callbacks,
}

-- The hardware counts the polls.
abbrev counter : Mmio ℕ
counter = record {
  read_32 = λ h r x. (0, x);
  write_32 = λ h r v x. x;
  read_64 = λ h r x. (0, x);
  write_64 = λ h r v x. x;
}

abbrev poll : ℕ → Run (Device ℕ) ℕ
poll n d = elim (d.hw) [
  | zero ↦ some (0, record d { hw = 1 })
  | suc k ↦ some (2048, record d { hw = suc (suc k) })
]

abbrev polling : HwCallbacks ℕ
polling = record (get_hw_callbacks counter true) { get_h2t_buffer = some poll }

abbrev client : ClientConn
client = record client_conn_default { h2t_data_fd = pos 4 }

abbrev packet : List ℕ
packet = 0xde ∷ 0xad ∷ 0xbe ∷ 0xef ∷ 3 ∷ 5 ∷ 2 ∷ 1 ∷ 8 ∷ 0 ∷ []

abbrev world : World Wire ℕ
world = record {
  conn =
      start_conn (start_buffers (get_design_info 1024) (replicate 512 0) (replicate 512 0)) polling;
  recv_buff = some (replicate 16 0);
  send_buff = some (replicate 16 0);
  os = record { incoming = packet ++ (1 ∷ 2 ∷ []); outgoing = [] };
  dev = record { drv = initial_driver; hw = 0 };
  terminate_ptr = true;
}

abbrev behind_header : Wire
behind_header = record { incoming = 1 ∷ 2 ∷ []; outgoing = [] }

abbrev polled : ℕ → Device ℕ
polled n = record { drv = initial_driver; hw = n }

process_h2t_data-takes_up_example :
    (process_h2t_data wire counter client world
      ≡ some (ok, put_off world packet behind_header (polled 1)))
    × (process_h2t_data wire counter client (put_off world packet behind_header (polled 1))
        ≡ accept_h2t wire counter client
            (h2t_header_at packet sizeof_packet_guardband)
            2048
            (put_off world packet behind_header (polled 2)))
unfolding get_hw_callbacks start_buffers socket_recv_accumulate recv_loop
process_h2t_data-takes_up_example =
    process_h2t_data-takes_up wire counter client world poll packet (pos 10) behind_header
      (polled 1) (polled 2) 2048 refl refl refl refl refl refl (omega arith)

-- Only two of the eight bytes are there.
few_come : length (wire-IsStream.pending client.h2t_data_fd behind_header) < 8
unfolding wire-IsStream
few_come = omega arith

fits_whole : buff_len_to_wrap_boundary 2048 1024 2048 8 ≡ 0
unfolding buff_len_to_wrap_boundary
fits_whole = refl

accept_h2t-unreceived_example :
    (host' : List ℕ) × (s' : Wire) × (accept_h2t wire counter client
        (h2t_header_at packet sizeof_packet_guardband)
        2048
        (put_off world packet behind_header (polled 1))
      ≡ push_h2t wire counter
          (h2t_header_at packet sizeof_packet_guardband)
          2048
          (record (put_off world packet behind_header (polled 1)) {
            conn = record ((put_off world packet behind_header (polled 1)).conn) {
              pkt_stats = record server_pkt_stats_default { h2t_cnt = 1 };
              h2t_waiting = false;
            };
            recv_buff = some host';
            os = s';
          }))
unfolding h2t_header_at start_buffers get_design_info
accept_h2t-unreceived_example =
    accept_h2t-unreceived wire-IsStream counter client
      (h2t_header_at packet sizeof_packet_guardband) 2048
      (put_off world packet behind_header (polled 1)) (replicate 16 0) refl (omega arith)
      (omega arith) few_come refl fits_whole

buff_len_to_wrap_boundary_lem_example :
    ((buff_len_to_wrap_boundary 2048 64 2096 40 ≡ 0) × (2096 + 40 ≤ 2048 + 64))
    ⊎ ((0 < buff_len_to_wrap_boundary 2048 64 2096 40)
        × (2096 + buff_len_to_wrap_boundary 2048 64 2096 40 ≡ 2048 + 64)
        × (buff_len_to_wrap_boundary 2048 64 2096 40
              + sub64 40 (buff_len_to_wrap_boundary 2048 64 2096 40)
            ≡ 40)
        × (2048 + sub64 40 (buff_len_to_wrap_boundary 2048 64 2096 40) ≤ 2096))
buff_len_to_wrap_boundary_lem_example =
    buff_len_to_wrap_boundary_lem 2048 64 2096 40 (omega arith) (omega arith) (omega arith)
      (omega arith)

get_parameter-set_parameter_example :
    (w' : World Wire ℕ) × (set_parameter wire (set_loopback_cmd b'1' (0 ∷ [])) client world
      ≡ some (Message.set_param_cmd_rsp, w'))
    × (get_parameter get_loopback_cmd w' ≡ some (literal "1", w'))
    × (w'.conn.loopback_mode ≡ true)
get_parameter-set_parameter_example =
    get_parameter-set_parameter wire client b'1' (0 ∷ []) world (omega arith)
