-- ===== src/Packet/Tests.antt =====
-- The packet theorems at a buffer with other bytes behind the packet.
use remote_debug_for_intel_f.Prelude.{ℕ, ◌≡◌, refl, List, [], ◌∷◌, some, arith}
use remote_debug_for_intel_f.Packet.{
  H2tPacketHeader, populate_h2t_packet_header, populate_h2t_packet_bytes, h2t_header_at,
}
use remote_debug_for_intel_f.Packet.Layout.{Wrote, populate_h2t_packet_bytes_lem}

abbrev dirty : List ℕ
dirty = 9 ∷ 9 ∷ 9 ∷ 9 ∷ 9 ∷ 9 ∷ 9 ∷ 9 ∷ 9 ∷ 9 ∷ 7 ∷ []

abbrev zeroed : H2tPacketHeader
zeroed = record { sop_eop = 0; conn_id = 0; channel = 0; data_len_bytes = 0 }

h2t_bytes :
    populate_h2t_packet_bytes 0 1 1 5 0x0102 0x1004 dirty
    ≡ some (tt, 0xde ∷ 0xad ∷ 0xbe ∷ 0xef ∷ 3 ∷ 5 ∷ 2 ∷ 1 ∷ 4 ∷ 0x10 ∷ 7 ∷ [])
unfolding populate_h2t_packet_bytes
h2t_bytes = refl

populate_h2t_packet_bytes_lem_example :
    (new : List ℕ) × (populate_h2t_packet_bytes 0 1 1 5 0x0102 0x1004 dirty ≡ some (tt, new))
    × Wrote h2t_header_at (populate_h2t_packet_header zeroed 1 1 5 0x0102 0x1004) dirty new
populate_h2t_packet_bytes_lem_example =
    populate_h2t_packet_bytes_lem dirty 1 1 5 0x0102 0x1004 zeroed (omega arith) (omega arith)
      (omega arith)
