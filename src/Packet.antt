-- ===== src/Packet.antt =====
-- streaming/src/intel_st_debug_if_packet.c and its header: the guard band and the two packet headers,
-- as structs and as the bytes on the wire. A pointer into a byte array is an offset.
pub mod Layout
mod Tests
use remote_debug_for_intel_f.Prelude.{
  ℕ, ◌+◌, ◌*◌, List, [], ◌∷◌, Run, ◌>>=◌, ◌>>◌, Option, none, some, bit_and, bit_or, u8, shl, shr,
  store, get_or,
}

-- PACKET_GUARDBAND
abbrev pub packet_guardband : List ℕ
packet_guardband = 0xde ∷ 0xad ∷ 0xbe ∷ 0xef ∷ []

abbrev pub sizeof_packet_guardband : ℕ
sizeof_packet_guardband = 4

abbrev pub sizeof_packet_header : ℕ
sizeof_packet_header = 6

abbrev pub mask_sop : ℕ
mask_sop = 0x01

abbrev pub mask_eop : ℕ
mask_eop = 0x02

-- H2T_PACKET_HEADER
pub record H2tPacketHeader : Type 0 where
  pub sop_eop : ℕ
  pub conn_id : ℕ
  pub channel : ℕ
  pub data_len_bytes : ℕ

-- MGMT_PACKET_HEADER
pub record MgmtPacketHeader : Type 0 where
  pub sop_eop : ℕ
  pub reserved : ℕ
  pub channel : ℕ
  pub data_len_bytes : ℕ

-- *(bytes + i) = v
abbrev pub poke : ℕ → ℕ → Run (List ℕ) (Unit {0})
poke i v bytes = elim (store bytes i v) [ none ↦ none | some bytes' ↦ some (tt, bytes') ]

-- (sop & 0x01) | ((eop & 0x01) << 1), cast to a byte
unfoldable pub pack_sop_eop : ℕ → ℕ → ℕ
pack_sop_eop sop eop = u8 (bit_or (bit_and sop 0x01) (shl (bit_and eop 0x01) 1))

-- The loop over the four bytes of PACKET_GUARDBAND, written out.
unfoldable pub populate_guardband : (bytes : ℕ) → Run (List ℕ) (Unit {0})
populate_guardband bytes = do
  poke bytes 0xde
  poke (bytes + 1) 0xad
  poke (bytes + 2) 0xbe
  poke (bytes + 3) 0xef

unfoldable pub populate_h2t_packet_header :
    H2tPacketHeader → (sop eop conn_id channel data_len_bytes : ℕ) → H2tPacketHeader
unfolding pack_sop_eop
populate_h2t_packet_header packet sop eop conn_id channel data_len_bytes = record packet {
  sop_eop = pack_sop_eop sop eop;
  conn_id = conn_id;
  channel = channel;
  data_len_bytes = data_len_bytes;
}

unfoldable pub populate_h2t_packet_header_bytes :
    (bytes sop eop conn_id channel data_len_bytes : ℕ) → Run (List ℕ) (Unit {0})
unfolding pack_sop_eop
populate_h2t_packet_header_bytes bytes sop eop conn_id channel data_len_bytes = do
  poke bytes (pack_sop_eop sop eop)
  poke (bytes + 1) conn_id
  poke (bytes + 2) (u8 channel)
  poke (bytes + 3) (u8 (shr (bit_and channel 0xff00) 8))
  poke (bytes + 4) (u8 data_len_bytes)
  poke (bytes + 5) (u8 (shr (bit_and data_len_bytes 0xff00) 8))

unfoldable pub populate_h2t_packet_bytes :
    (bytes sop eop conn_id channel data_len_bytes : ℕ) → Run (List ℕ) (Unit {0})
unfolding populate_guardband populate_h2t_packet_header_bytes
populate_h2t_packet_bytes bytes sop eop conn_id channel data_len_bytes = do
  populate_guardband bytes
  populate_h2t_packet_header_bytes (bytes + sizeof_packet_guardband) sop eop conn_id channel
      data_len_bytes

unfoldable pub populate_mgmt_packet_header :
    MgmtPacketHeader → (sop eop channel data_len_bytes : ℕ) → MgmtPacketHeader
unfolding pack_sop_eop
populate_mgmt_packet_header packet sop eop channel data_len_bytes = record packet {
  sop_eop = pack_sop_eop sop eop;
  channel = channel;
  data_len_bytes = data_len_bytes;
}

-- bytes[1], which is RESERVED, is not written.
unfoldable pub populate_mgmt_packet_header_bytes :
    (bytes sop eop channel data_len_bytes : ℕ) → Run (List ℕ) (Unit {0})
unfolding pack_sop_eop
populate_mgmt_packet_header_bytes bytes sop eop channel data_len_bytes = do
  poke bytes (pack_sop_eop sop eop)
  poke (bytes + 2) (u8 channel)
  poke (bytes + 3) (u8 (shr (bit_and channel 0xff00) 8))
  poke (bytes + 4) (u8 data_len_bytes)
  poke (bytes + 5) (u8 (shr (bit_and data_len_bytes 0xff00) 8))

unfoldable pub populate_mgmt_packet_bytes :
    (bytes sop eop channel data_len_bytes : ℕ) → Run (List ℕ) (Unit {0})
unfolding populate_guardband populate_mgmt_packet_header_bytes
populate_mgmt_packet_bytes bytes sop eop channel data_len_bytes = do
  populate_guardband bytes
  populate_mgmt_packet_header_bytes (bytes + sizeof_packet_guardband) sop eop channel data_len_bytes

-- (H2T_PACKET_HEADER *)(bytes + at), on a machine that stores the low byte first.
unfoldable pub h2t_header_at : List ℕ → ℕ → H2tPacketHeader
h2t_header_at bytes at = record {
  sop_eop = get_or bytes at 0;
  conn_id = get_or bytes (at + 1) 0;
  channel = get_or bytes (at + 2) 0 + 256 * get_or bytes (at + 3) 0;
  data_len_bytes = get_or bytes (at + 4) 0 + 256 * get_or bytes (at + 5) 0;
}

-- (MGMT_PACKET_HEADER *)(bytes + at)
unfoldable pub mgmt_header_at : List ℕ → ℕ → MgmtPacketHeader
mgmt_header_at bytes at = record {
  sop_eop = get_or bytes at 0;
  reserved = get_or bytes (at + 1) 0;
  channel = get_or bytes (at + 2) 0 + 256 * get_or bytes (at + 3) 0;
  data_len_bytes = get_or bytes (at + 4) 0 + 256 * get_or bytes (at + 5) 0;
}
