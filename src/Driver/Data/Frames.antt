-- ===== src/Driver/Data/Frames.antt =====
-- push_h2t_data and get_t2h_data of streaming/src/intel_st_debug_if_st_dbg_ip_driver.c, by the fragments
-- that the descriptor words stand for.
use remote_debug_for_intel_f.Prelude.{
  ℕ, ◌+◌, ◌-◌, ◌*◌, ◌/◌, ◌%◌, sub16, ◌^◌, ◌<◌, ◌≡◌, ◌∙◌, refl, Bool, true, false, some, arith,
  bit_or, u32, shl, ltb, if◌then◌else◌,
}
use remote_debug_for_intel_f.Prelude.Int.{pos}
use remote_debug_for_intel_f.Packet.{H2tPacketHeader}
use remote_debug_for_intel_f.Mmio.{Mmio}
use remote_debug_for_intel_f.Driver.{Device}
use remote_debug_for_intel_f.Driver.Reg
use remote_debug_for_intel_f.Driver.Data.{howlong_where, push_h2t_data, get_t2h_data}
use remote_debug_for_intel_f.Driver.Data.Words.{
  eop_bit, howlong_where_lem, howlong_where-fields, connid_lem, sop_eop_of_lem,
}

-- A block that the hardware offers: a fragment of a packet, with the flag that it is the last one.
pub record Fragment : Type 0 where
  pub last : Bool
  pub conn_id : ℕ
  pub channel : ℕ
  pub len : ℕ
  pub where_at : ℕ

pub record InRange (f : Fragment) : Type 0 where
  pub conn_id : f.conn_id < 2 ^ 8
  pub channel : f.channel < 2 ^ 16
  pub len : f.len < 2 ^ 16
  pub nonempty : 0 < f.len
  pub where_at : f.where_at < 2 ^ 32

-- The SOP_EOP byte of a header with both flags.
abbrev pub flags : (sop eop : Bool) → ℕ
flags sop eop = (if sop then 1 else 0) + (if eop then 2 else 0)

-- The two words that push_h2t_data writes for a header and an address.
abbrev pub words_of : H2tPacketHeader → ℕ → ℕ × ℕ
words_of h payload =
    (howlong_where h.sop_eop h.data_len_bytes payload, bit_or h.conn_id (shl h.channel 32))

abbrev pub header_of : (sop : Bool) → Fragment → H2tPacketHeader
header_of sop f = record {
  sop_eop = flags sop f.last;
  conn_id = f.conn_id;
  channel = f.channel;
  data_len_bytes = f.len;
}

flags-eop : (sop eop : Bool) → ltb 0 (eop_bit (flags sop eop)) ≡ eop
flags-eop true true = refl
flags-eop true false = refl
flags-eop false true = refl
flags-eop false false = refl

module _ {X : Type 0} (m : Mmio X) (d : Device X) where
  -- With at least one slot recorded, and the fields of the header and the address in the ranges of
  -- their C types, `push_h2t_data` answers 0, takes one slot, and writes two words to the hardware,
  -- in that order and nothing else: first the length in bits 0 to 30, the EOP flag of the header in
  -- bit 31 and the address from bit 32 on, then the connection in the low byte and the channel from
  -- bit 32 on.
  pub push_h2t_data_lem :
      (h : H2tPacketHeader) (payload : ℕ)
      → 0 < d.drv.h2t.slots_available
      → d.drv.h2t.slots_available < 2 ^ 16
      → h.conn_id < 2 ^ 8
      → h.channel < 2 ^ 16
      → h.data_len_bytes < 2 ^ 16
      → payload < 2 ^ 32
      → let q = d.drv.h2t in
        push_h2t_data m h payload d
        ≡ some (
          pos 0,
          record {
            drv = record (d.drv) { h2t = record q { slots_available = q.slots_available - 1 } };
            hw =
                m.write_64 d.drv.mmio_handle Reg.h2t_connection_id
                  (h.conn_id + h.channel * 2 ^ 32)
                  (m.write_64 d.drv.mmio_handle Reg.h2t_how_long
                    (h.data_len_bytes + h.sop_eop / 2 % 2 * 2 ^ 31 + payload * 2 ^ 32)
                    d.hw);
          },
        )
  unfolding push_h2t_data
  push_h2t_data_lem h payload hs hb hc hh hl hp =
      let slots : sub16 d.drv.h2t.slots_available 1 ≡ d.drv.h2t.slots_available - 1 = omega arith in
      rw
        (
          howlong_where_lem h.sop_eop h.data_len_bytes payload hl hp,
          connid_lem h.conn_id h.channel hc hh,
          slots,
        )
        refl

  -- Where the hardware offers the two words that `push_h2t_data` would write for a fragment whose
  -- fields are in range and whose length is not 0, `get_t2h_data` gives 0, the fragment's
  -- connection, channel and length, and its address moved into the T2H memory, in 32 bits. SOP in
  -- the header is the driver's flag and EOP the fragment's; the driver's flag for the next fragment
  -- is this one's EOP.
  pub get_t2h_data-words_of :
      (sop : Bool) (f : Fragment) (x x' : X) (header : H2tPacketHeader) (payload : ℕ)
      → InRange f
      → m.read_64 d.drv.mmio_handle Reg.t2h_how_long d.hw
        ≡ ((words_of (header_of sop f) f.where_at).0, x)
      → m.read_64 d.drv.mmio_handle Reg.t2h_connection_id x
        ≡ ((words_of (header_of sop f) f.where_at).1, x')
      → let drv = d.drv in
        get_t2h_data m header payload d
        ≡ some (
          (
            pos 0,
            header_of drv.t2h_sop f,
            u32 (f.where_at + drv.std_dbg_ip_info.t2h_mem_base_addr),
          ),
          record { drv = record drv { t2h_sop = f.last }; hw = x' },
        )
  unfolding get_t2h_data
  get_t2h_data-words_of sop f x x' header payload r e1 e2 =
      let fields = howlong_where-fields (flags sop f.last) f.len f.where_at r.len r.where_at in
      let conn = connid_lem f.conn_id f.channel r.conn_id r.channel in
      let sop_eop =
        sop_eop_of_lem d.drv.t2h_sop f.last (u32 (words_of (header_of sop f) f.where_at).0)
          (fields.1 ∙ flags-eop sop f.last) in
      rw (e1, e2) (ground (arith, fields, flags-eop sop f.last, conn, sop_eop, r))
