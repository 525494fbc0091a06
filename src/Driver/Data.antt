-- ===== src/Driver/Data.antt =====
-- The descriptor traffic of streaming/src/intel_st_debug_if_st_dbg_ip_driver.c: push_h2t_data,
-- push_mgmt_data, get_t2h_data, get_mgmt_rsp_data and the two completions. A header that C writes
-- through a pointer goes in and comes out.
pub mod Words
pub mod Frames
use remote_debug_for_intel_f.Prelude.{
  ℕ, ◌+◌, ◌-◌, Bool, Option, some, Run, bit_and, bit_or, u8, u16, u32, u64, sub16, shl, shr, ◌==◌,
  ltb, if◌then◌else◌,
}
use remote_debug_for_intel_f.Prelude.Int.{ℤ, pos}
use remote_debug_for_intel_f.Packet.{H2tPacketHeader, MgmtPacketHeader, mask_sop, mask_eop}
use remote_debug_for_intel_f.Mmio.{Mmio}
use remote_debug_for_intel_f.Driver.Reg
use remote_debug_for_intel_f.Driver.{Device, last_descriptor_mask, how_long_mask}

abbrev done : {A S : Type 0} → A → S → Option (A × S)
done a s = some (a, s)

-- The test of a C expression that is not compared.
abbrev pub is_set : ℕ → Bool
is_set n = ltb 0 n

-- `howlong_where`: the length and the LAST bit below, the address above.
unfoldable pub howlong_where : (sop_eop data_len_bytes payload : ℕ) → ℕ
howlong_where sop_eop data_len_bytes payload =
    let how_long = bit_and data_len_bytes how_long_mask in
    let last_howlong =
      if is_set (bit_and sop_eop mask_eop)
      then bit_or how_long last_descriptor_mask
      else how_long in
    bit_or last_howlong (u64 (shl payload 32))

-- `header->SOP_EOP` as the two readers set it: SOP from their flag, EOP from the LAST bit.
unfoldable pub sop_eop_of : (sop : Bool) → (last_howlong : ℕ) → ℕ
sop_eop_of sop last_howlong =
    let started = if sop then bit_or 0 mask_sop else 0 in
    if is_set (bit_and last_howlong last_descriptor_mask) then bit_or started mask_eop else started

module _ {X : Type 0} (m : Mmio X) where
  unfoldable pub push_h2t_data : H2tPacketHeader → (payload : ℕ) → Run (Device X) ℤ
  push_h2t_data header payload d =
      let drv = d.drv in
      let q = drv.h2t in
      let hw =
        m.write_64 drv.mmio_handle Reg.h2t_how_long
          (howlong_where header.sop_eop header.data_len_bytes payload) d.hw in
      let hw' =
        m.write_64 drv.mmio_handle Reg.h2t_connection_id
          (bit_or header.conn_id (shl header.channel 32)) hw in
      done (pos 0) (record {
        drv = record drv { h2t = record q { slots_available = sub16 q.slots_available 1 } };
        hw = hw';
      })

  unfoldable pub push_mgmt_data : MgmtPacketHeader → (payload : ℕ) → Run (Device X) ℤ
  push_mgmt_data header payload d =
      let drv = d.drv in
      let q = drv.mgmt in
      let hw =
        m.write_64 drv.mmio_handle Reg.mgmt_how_long
          (howlong_where header.sop_eop header.data_len_bytes payload) d.hw in
      let hw' =
        m.write_64 drv.mmio_handle (Reg.mgmt_channel_id_push - 0x4) (shl header.channel 32) hw in
      done (pos 0) (record {
        drv = record drv { mgmt = record q { slots_available = sub16 q.slots_available 1 } };
        hw = hw';
      })

  -- The result, the header and `*payload`; with no data the last two are as they were, but for the
  -- length.
  unfoldable pub get_t2h_data :
      H2tPacketHeader → (payload : ℕ) → Run (Device X) (ℤ × H2tPacketHeader × ℕ)
  get_t2h_data header payload d =
      let drv = d.drv in
      let (howlong, hw) = m.read_64 drv.mmio_handle Reg.t2h_how_long d.hw in
      let last_howlong = u32 howlong in
      let header' = record header { data_len_bytes = u16 (bit_and last_howlong how_long_mask) } in
      let (connid_channelid, hw') = m.read_64 drv.mmio_handle Reg.t2h_connection_id hw in
      if header'.data_len_bytes == 0
      then done (pos 0, header', payload) (record d { hw = hw })
      else done
          (
            pos 0,
            record header' {
              sop_eop = sop_eop_of drv.t2h_sop last_howlong;
              conn_id = u8 connid_channelid;
              channel = u16 (shr connid_channelid 32);
            },
            u32 (u32 (shr howlong 32) + drv.std_dbg_ip_info.t2h_mem_base_addr),
          )
          (record {
            drv = record drv { t2h_sop = is_set (bit_and last_howlong last_descriptor_mask) };
            hw = hw';
          })

  unfoldable pub t2h_data_complete : Run (Device X) (Unit {0})
  t2h_data_complete d =
      done tt (record d { hw = m.write_32 d.drv.mmio_handle Reg.t2h_descriptors_done 1 d.hw })

  unfoldable pub get_mgmt_rsp_data :
      MgmtPacketHeader → (payload : ℕ) → Run (Device X) (ℤ × MgmtPacketHeader × ℕ)
  get_mgmt_rsp_data header payload d =
      let drv = d.drv in
      let (howlong, hw) = m.read_64 drv.mmio_handle Reg.mgmt_rsp_how_long d.hw in
      let last_howlong = u32 howlong in
      let header' = record header { data_len_bytes = u16 (bit_and last_howlong how_long_mask) } in
      let (channel, hw') = m.read_64 drv.mmio_handle (Reg.mgmt_rsp_channel_id_advance - 0x4) hw in
      if header'.data_len_bytes == 0
      then done (pos 0, header', payload) (record d { hw = hw })
      else done
          (
            pos 0,
            record header' {
              sop_eop = sop_eop_of drv.mgmt_rsp_sop last_howlong;
              channel = u16 (shr channel 32);
            },
            u32 (u32 (shr howlong 32) + drv.std_dbg_ip_info.mgmt_rsp_mem_base_addr),
          )
          (record {
            drv = record drv { mgmt_rsp_sop = is_set (bit_and last_howlong last_descriptor_mask) };
            hw = hw';
          })

  unfoldable pub mgmt_rsp_data_complete : Run (Device X) (Unit {0})
  mgmt_rsp_data_complete d =
      done tt (record d { hw = m.write_32 d.drv.mmio_handle Reg.mgmt_rsp_descriptors_done 1 d.hw })
