-- ===== src/Server/T2h/Tests.antt =====
-- A frame whose payload of twelve bytes runs round the end of a ring of sixteen.
use remote_debug_for_intel_f.Prelude.{
  ℕ, refl, true, false, List, [], ◌∷◌, ◌++◌, Option, some, arith, Run, replicate,
}
use remote_debug_for_intel_f.Prelude.Int.{ℤ, pos}
use remote_debug_for_intel_f.Packet.{H2tPacketHeader, packet_guardband}
use remote_debug_for_intel_f.Os.Wire.{Wire, wire, wire-IsStream, wire-KeepsSent}
use remote_debug_for_intel_f.Driver.{Device}
use remote_debug_for_intel_f.Server.{ClientConn, World, ServerBuffers, client_conn_default}
use remote_debug_for_intel_f.Server.Wrap.Around.{around}
use remote_debug_for_intel_f.Server.H2t.Tests.{table, before, ring, after, host, mapped}
use remote_debug_for_intel_f.Server.T2h.{process_t2h_data}
use remote_debug_for_intel_f.Server.T2h.Frames.{HasRing}
use remote_debug_for_intel_f.Server.T2h.Delivery.{Delivered}
use remote_debug_for_intel_f.Server.T2h.Guardband.{framed-HasGuardband}
use remote_debug_for_intel_f.Server.T2h.Process.{fields, process_t2h_data-Delivered}
use remote_debug_for_intel_f.StreamDbg.{
  get_design_info, start_buffers, start_conn, get_hw_callbacks,
}
use remote_debug_for_intel_f.Uio.Access.{ram, uio_mmio, fpga_uio_get_base_address}
use remote_debug_for_intel_f.Uio.Access.Bytes.{IsBytes}
use remote_debug_for_intel_f.Uio.Access.Words.{At}

abbrev client : ClientConn
client = record client_conn_default { t2h_data_fd = pos 5 }

abbrev header : H2tPacketHeader
header = record { sop_eop = 3; conn_id = 5; channel = 258; data_len_bytes = 12 }

abbrev acquire : H2tPacketHeader → ℕ → Run (Device (Option (List ℕ))) (ℤ × H2tPacketHeader × ℕ)
acquire old last d = some ((pos 0, header, 24), d)

abbrev given_back : Device (Option (List ℕ))
given_back = record mapped { drv = record (mapped.drv) { t2h_sop = false } }

abbrev complete : Run (Device (Option (List ℕ))) (Unit {0})
complete d = some (tt, record d { drv = record (d.drv) { t2h_sop = false } })

abbrev buffers : ServerBuffers
buffers = record (start_buffers (get_design_info 1024) (replicate 512 0) (replicate 512 0)) {
  t2h_header_buff = packet_guardband ++ replicate 6 0;
  t2h_tx_buff = 16;
  t2h_tx_buff_sz = 16;
}

abbrev world : World Wire (Option (List ℕ))
world = record {
  conn = start_conn buffers (record (get_hw_callbacks (uio_mmio (ram 4096) table true) true) {
    acquire_t2h_data = some acquire;
    t2h_data_complete = some complete;
  });
  recv_buff = some host;
  send_buff = some host;
  os = record { incoming = []; outgoing = 9 ∷ [] };
  dev = mapped;
  terminate_ptr = true;
}

world-HasRing : HasRing wire-IsStream 4096 0 table (pos 0) true client world before ring after host
unfolding IsBytes At fpga_uio_get_base_address start_buffers
world-HasRing = record {
  placed = record {
    mapped = refl;
    here = refl;
    holds = refl;
    bytes = ground arith;
    top = omega arith;
  };
  front = refl;
  span = refl;
  spare = omega arith;
  low = omega arith;
  wraps = refl;
  buffer = refl;
  room = omega arith;
}

process_t2h_data-Delivered_example :
    Delivered wire-IsStream client
      (record { incoming = []; outgoing = 9 ∷ [] })
      (packet_guardband ++ (fields header ++ around 8 12 ring))
      mapped
      given_back
      (process_t2h_data wire (uio_mmio (ram 4096) table true) client world)
unfolding start_buffers get_hw_callbacks
process_t2h_data-Delivered_example =
    process_t2h_data-Delivered wire-IsStream wire-KeepsSent 4096 0 table (pos 0) true client world
      acquire complete header 8 mapped given_back before ring after host
      (framed-HasGuardband (replicate 6 0) refl) refl refl refl refl world-HasRing (omega arith)
      (omega arith) (omega arith)
