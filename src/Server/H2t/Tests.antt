-- ===== src/Server/H2t/Tests.antt =====
-- A packet of twelve bytes of payload that runs round the end of a ring of sixteen.
use remote_debug_for_intel_f.Prelude.{
  ℕ, suc, ◌-◌, ◌<◌, ◌≡◌, refl, true, List, [], ◌∷◌, ◌++◌, Option, some, arith, Run, replicate,
  length, take, min,
}
use remote_debug_for_intel_f.Prelude.Int.{pos}
use remote_debug_for_intel_f.Packet.{h2t_header_at, sizeof_packet_guardband}
use remote_debug_for_intel_f.Os.{got}
use remote_debug_for_intel_f.Os.Wire.{Wire, wire, wire-IsStream}
use remote_debug_for_intel_f.Driver.{Device, initial_driver}
use remote_debug_for_intel_f.Sockets.Recv.Open.{StaysOpen}
use remote_debug_for_intel_f.Server.{ClientConn, World, ServerBuffers, client_conn_default}
use remote_debug_for_intel_f.Server.Wrap.Around.{around}
use remote_debug_for_intel_f.Server.H2t.{push_h2t, process_h2t_data}
use remote_debug_for_intel_f.Server.H2t.Ring.{lay_around}
use remote_debug_for_intel_f.Server.H2t.Landing.{HasRing}
use remote_debug_for_intel_f.Server.H2t.Delivery.{landed, process_h2t_data-lands}
use remote_debug_for_intel_f.StreamDbg.{
  get_design_info, start_buffers, start_conn, get_hw_callbacks,
}
use remote_debug_for_intel_f.Interfaces.{InterfaceVec, zero_info}
use remote_debug_for_intel_f.Uio.Access.{ram, uio_mmio, fpga_uio_get_base_address}
use remote_debug_for_intel_f.Uio.Access.Bytes.{IsBytes}
use remote_debug_for_intel_f.Uio.Access.Words.{At}
use remote_debug_for_intel_f.Uio.Access.Pieces.{moved}

some_come :
    (n : ℕ) (bs : List ℕ)
    → 0 < n
    → 0 < length bs
    → (b : ℕ) × (rest : List ℕ) × (got (take (min n 3) bs) ≡ got (b ∷ rest))
some_come n [] h h' = absurd (omega arith)
some_come n (b ∷ bs) h h' =
    let k : min n 3 ≡ suc (min n 3 - 1) = omega arith in
    (b, take (min n 3 - 1) bs, λ i. got (take (k i) (b ∷ bs)))

wire-StaysOpen : StaysOpen wire-IsStream (pos 4)
unfolding wire-IsStream
wire-StaysOpen = record { gets_some = λ n flags s h h'. some_come n s.incoming h h' }

abbrev pub table : InterfaceVec
table = record {
  vec = record zero_info { base_address = 4096 } ∷ [];
  vec_size = 1;
  vec_reserved = 1;
}

abbrev client : ClientConn
client = record client_conn_default { h2t_data_fd = pos 4 }

abbrev pub before : List ℕ
before = replicate 16 1

abbrev pub ring : List ℕ
ring = replicate 16 2

abbrev pub after : List ℕ
after = replicate 8 3

abbrev pub host : List ℕ
host = replicate 80 0

abbrev pub mapped : Device (Option (List ℕ))
mapped = record {
  drv = record initial_driver { mmio_handle = pos 0 };
  hw = some (before ++ (ring ++ after));
}

abbrev packet : List ℕ
packet = 0xde ∷ 0xad ∷ 0xbe ∷ 0xef ∷ 3 ∷ 5 ∷ 2 ∷ 1 ∷ 12 ∷ 0 ∷ []

abbrev payload : List ℕ
payload = 11 ∷ 12 ∷ 13 ∷ 14 ∷ 15 ∷ 16 ∷ 17 ∷ 18 ∷ 19 ∷ 20 ∷ 21 ∷ 22 ∷ []

abbrev in_the_ring : ℕ → Run (Device (Option (List ℕ))) ℕ
in_the_ring n d = some (24, d)

abbrev buffers : ServerBuffers
buffers = record (start_buffers (get_design_info 1024) (replicate 512 0) (replicate 512 0)) {
  h2t_rx_buff = 16;
  h2t_rx_buff_sz = 16;
}

abbrev world : World Wire (Option (List ℕ))
world = record {
  conn = start_conn buffers (record (get_hw_callbacks (uio_mmio (ram 4096) table true) true) {
    get_h2t_buffer = some in_the_ring;
  });
  recv_buff = some host;
  send_buff = some host;
  os = record { incoming = packet ++ (payload ++ (7 ∷ [])); outgoing = [] };
  dev = mapped;
  terminate_ptr = true;
}

world-HasRing :
    HasRing wire-IsStream 4096 0 table
      (pos 0)
      true
      client
      wire-StaysOpen
      before
      after
      world
      ring
      host
unfolding wire-IsStream IsBytes At fpga_uio_get_base_address start_buffers
world-HasRing = record {
  placed = record {
    mapped = refl;
    here = refl;
    holds = refl;
    bytes = ground arith;
    top = omega arith;
  };
  front = refl;
  span = refl;
  low = omega arith;
  whole_words = refl;
  wraps = refl;
  buffer = refl;
  room = omega arith;
  host_bytes = ground arith;
  stream_bytes = ground arith;
}

process_h2t_data-lands_example :
    (bs : List ℕ) × (host' : List ℕ) × (s' : Wire) × (process_h2t_data wire
        (uio_mmio (ram 4096) table true)
        client
        world
      ≡ push_h2t wire
          (uio_mmio (ram 4096) table true)
          (h2t_header_at packet sizeof_packet_guardband)
          24
          (landed wire-IsStream 4096 0 table
            (pos 0)
            true
            client
            wire-StaysOpen
            before
            after
            world
            packet
            host'
            (lay_around 8 bs ring)
            s'
            mapped))
    × (length bs ≡ moved 12)
    × (around 8 12 (lay_around 8 bs ring) ≡ payload)
    × (s'.incoming ≡ 7 ∷ [])
unfolding wire-IsStream start_buffers get_hw_callbacks h2t_header_at
process_h2t_data-lands_example =
    process_h2t_data-lands wire-IsStream 4096 0 table (pos 0) true client wire-StaysOpen before
      after world in_the_ring 8 mapped ring host refl refl refl refl (omega arith) refl
      (omega arith) world-HasRing refl (omega arith) (omega arith)
