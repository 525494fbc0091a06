-- ===== src/Driver/Data/Words.antt =====
-- The descriptor words of streaming/src/intel_st_debug_if_st_dbg_ip_driver.c, field by field.
use remote_debug_for_intel_f.Prelude.{
  ℕ, ◌+◌, ◌*◌, ◌/◌, ◌%◌, ◌^◌, ◌<◌, ◌≡◌, Bool, true, false, arith, bit_and, bit_or, u16, u32, shl,
  shr, ltb, if◌then◌else◌,
}
use remote_debug_for_intel_f.Prelude.Bits.{and_mask, and_bit, or-shl}
use remote_debug_for_intel_f.Packet.{mask_eop}
use remote_debug_for_intel_f.Driver.{last_descriptor_mask, how_long_mask}
use remote_debug_for_intel_f.Driver.Data.{is_set, howlong_where, sop_eop_of}

-- The EOP flag of a SOP_EOP byte, as a number.
abbrev pub eop_bit : ℕ → ℕ
eop_bit sop_eop = sop_eop / 2 % 2

-- The EOP mask tests that flag.
is_set-eop : (sop_eop : ℕ) → is_set (bit_and sop_eop mask_eop) ≡ ltb 0 (eop_bit sop_eop)
is_set-eop sop_eop = ground (arith, and_bit 1 sop_eop)

-- The word holds the length in bits 0 to 30, the EOP flag as the LAST bit 31, and the address above.
pub howlong_where_lem :
    (sop_eop len payload : ℕ)
    → len < 2 ^ 16
    → payload < 2 ^ 32
    → howlong_where sop_eop len payload ≡ len + eop_bit sop_eop * 2 ^ 31 + payload * 2 ^ 32
unfolding howlong_where
howlong_where_lem sop_eop len payload hl hp = ground (
  arith,
  is_set-eop sop_eop,
  and_mask 31 len,
  or-shl 31 len 1,
  or-shl 32 len payload,
  or-shl 32 (len + 2 ^ 31) payload,
)

-- For a length below 2^16 and an address below 2^32, the readers of a descriptor word take from
-- what the writers put there the same length, the EOP flag as the LAST bit, and the same address.
pub howlong_where-fields :
    (sop_eop len payload : ℕ)
    → len < 2 ^ 16
    → payload < 2 ^ 32
    → let w = howlong_where sop_eop len payload in
      (u16 (bit_and (u32 w) how_long_mask) ≡ len)
      × (is_set (bit_and (u32 w) last_descriptor_mask) ≡ ltb 0 (eop_bit sop_eop))
      × (u32 (shr w 32) ≡ payload)
howlong_where-fields sop_eop len payload hl hp =
    let w = howlong_where sop_eop len payload in
    (
      omega (arith, howlong_where_lem sop_eop len payload hl hp, and_mask 31 (u32 w)),
      ground (arith, howlong_where_lem sop_eop len payload hl hp, and_bit 31 (u32 w)),
      omega (arith, howlong_where_lem sop_eop len payload hl hp),
    )

-- `connid_channelpush` and its fields.
pub connid_lem :
    (conn channel : ℕ)
    → conn < 2 ^ 8
    → channel < 2 ^ 16
    → bit_or conn (shl channel 32) ≡ conn + channel * 2 ^ 32
connid_lem conn channel hc hh = or-shl 32 conn channel (omega arith)

-- The SOP_EOP byte that a reader builds.
pub sop_eop_of_lem :
    (sop last : Bool) (w : ℕ)
    → is_set (bit_and w last_descriptor_mask) ≡ last
    → sop_eop_of sop w ≡ (if sop then 1 else 0) + (if last then 2 else 0)
unfolding sop_eop_of
sop_eop_of_lem true true w h = rw h
sop_eop_of_lem true false w h = rw h
sop_eop_of_lem false true w h = rw h
sop_eop_of_lem false false w h = rw h
