-- ===== src/Packet/Layout.antt =====
-- The byte writers and the struct writers of streaming/src/intel_st_debug_if_packet.c agree.
use remote_debug_for_intel_f.Prelude.{
  ℕ, ◌+◌, ◌*◌, ◌/◌, ◌%◌, ◌^◌, ◌≤◌, ◌<◌, ◌≡◌, refl, List, ◌∷◌, some, arith, bit_and, length, take,
  drop,
}
use remote_debug_for_intel_f.Prelude.Bits.{and_mask, and_bit, and-shl, or-shl}
use remote_debug_for_intel_f.Packet.{
  packet_guardband, mask_sop, mask_eop, H2tPacketHeader, pack_sop_eop, populate_h2t_packet_header,
  populate_h2t_packet_bytes, populate_mgmt_packet_header, populate_mgmt_packet_bytes, h2t_header_at,
  mgmt_header_at,
}

pub pack_sop_eop-eq : (sop eop : ℕ) → pack_sop_eop sop eop ≡ sop % 2 + eop % 2 * 2
unfolding pack_sop_eop
pack_sop_eop-eq sop eop =
    ground (arith, and_mask 1 sop, and_mask 1 eop, or-shl 1 (sop % 2) (eop % 2))

high_byte : (x : ℕ) → bit_and x 0xff00 / 256 ≡ x / 256 % 256
high_byte x = ground (arith, and-shl 8 x 0xff, and_mask 8 (x / 256))

-- The masks of the header read back the two flags from the packed byte: the lowest bits of what was
-- given as `sop` and `eop`, whatever else these hold.
pack_sop_eop-masks :
    (sop eop : ℕ)
    → (bit_and (pack_sop_eop sop eop) mask_sop ≡ sop % 2)
      × (bit_and (pack_sop_eop sop eop) mask_eop ≡ eop % 2 * 2)
pack_sop_eop-masks sop eop = ground (
  arith,
  pack_sop_eop-eq sop eop,
  and_mask 1 (sop % 2 + eop % 2 * 2),
  and_bit 1 (sop % 2 + eop % 2 * 2),
)

-- What a writer of one whole packet head leaves at offset 0 of the bytes `old`: the guard band, the
-- header, and behind these ten bytes whatever stood there.
abbrev pub Wrote : {H : Type 0} → (List ℕ → ℕ → H) → H → List ℕ → List ℕ → Type 0
Wrote read header old new =
    (take 4 new ≡ packet_guardband) × (read new 4 ≡ header) × (drop 10 new ≡ drop 10 old)

-- In a buffer of at least ten bytes, for a channel and a length below 2^16,
-- `populate_h2t_packet_bytes` succeeds. It writes the guard band and then bytes that, read as the
-- struct, are what `populate_h2t_packet_header` writes into any struct; the bytes behind the ten
-- stay.
pub populate_h2t_packet_bytes_lem :
    (old : List ℕ) (sop eop conn_id channel data_len_bytes : ℕ) (packet : H2tPacketHeader)
    → 10 ≤ length old
    → channel < 2 ^ 16
    → data_len_bytes < 2 ^ 16
    → (new : List ℕ) × (populate_h2t_packet_bytes 0 sop eop conn_id channel data_len_bytes old
        ≡ some (tt, new))
      × Wrote h2t_header_at
          (populate_h2t_packet_header packet sop eop conn_id channel data_len_bytes)
          old
          new
unfolding populate_h2t_packet_bytes populate_h2t_packet_header h2t_header_at
populate_h2t_packet_bytes_lem (_ ∷ _ ∷ _ ∷ _ ∷ _ ∷ _ ∷ _ ∷ _ ∷ _ ∷ _ ∷ old) sop eop c ch len packet
      h hc hl =
    (_, refl, (refl, ground (arith, high_byte ch, high_byte len), refl))
populate_h2t_packet_bytes_lem _ sop eop c ch len packet h hc hl = absurd (omega arith)

-- In a buffer of at least ten bytes, for a channel and a length below 2^16,
-- `populate_mgmt_packet_bytes` succeeds. It writes the guard band and then bytes that, read as the
-- struct, are what `populate_mgmt_packet_header` makes of the struct that stood there, whose
-- reserved byte stays; the bytes behind the ten stay.
pub populate_mgmt_packet_bytes_lem :
    (old : List ℕ) (sop eop channel data_len_bytes : ℕ)
    → 10 ≤ length old
    → channel < 2 ^ 16
    → data_len_bytes < 2 ^ 16
    → (new : List ℕ) × (populate_mgmt_packet_bytes 0 sop eop channel data_len_bytes old
        ≡ some (tt, new))
      × Wrote mgmt_header_at
          (populate_mgmt_packet_header (mgmt_header_at old 4) sop eop channel data_len_bytes)
          old
          new
unfolding populate_mgmt_packet_bytes populate_mgmt_packet_header mgmt_header_at
populate_mgmt_packet_bytes_lem (_ ∷ _ ∷ _ ∷ _ ∷ _ ∷ _ ∷ _ ∷ _ ∷ _ ∷ _ ∷ old) sop eop ch len h hc
      hl =
    (_, refl, (refl, ground (arith, high_byte ch, high_byte len), refl))
populate_mgmt_packet_bytes_lem _ sop eop ch len h hc hl = absurd (omega arith)
