-- ===== src/Server/T2h.antt =====
-- process_t2h_data of streaming/src/intel_st_debug_if_server.c.
pub mod Pieces
pub mod Frames
pub mod Delivery
pub mod Guardband
pub mod Process
mod Tests
use remote_debug_for_intel_f.Prelude.{
  u64, ℕ, ◌+◌, not, ◌&&◌, List, [], ◌∷◌, none, some, Run, ◌>>=◌, ◌>>◌, pure, get, u8, shr, sub64,
  ◌==◌, if◌then◌else◌, blit,
}
use remote_debug_for_intel_f.Prelude.Int.{ℤ, pos}
use remote_debug_for_intel_f.Packet.{H2tPacketHeader, h2t_header_at, sizeof_packet_guardband}
use remote_debug_for_intel_f.Mmio.{Mmio}
use remote_debug_for_intel_f.Os.{Os}
use remote_debug_for_intel_f.Driver.{Device}
use remote_debug_for_intel_f.Sockets.{ReturnCode, ok, failure, int_eq, socket_send_all}
use remote_debug_for_intel_f.Server.{ClientConn, World, on_os, on_dev, set_conn, set_buff}
use remote_debug_for_intel_f.Server.Wrap.{buff_len_to_wrap_boundary}
use remote_debug_for_intel_f.Server.H2t.{is_ok, header_bytes, socket_send_all_t2h_data}
use remote_debug_for_intel_f.Server.Params.{string}

-- The six bytes of a header struct on a machine that stores the low byte first.
abbrev pub bytes_of : (first second channel data_len_bytes : ℕ) → List ℕ
bytes_of first second channel data_len_bytes =
    u8 first
    ∷ u8 second
    ∷ u8 channel
    ∷ u8 (shr channel 8)
    ∷ u8 data_len_bytes
    ∷ u8 (shr data_len_bytes 8)
    ∷ []

-- What follows an acquire callback: FAILURE unless it gave 0; nothing more where there is no data.
abbrev pub acquired : {S : Type 0} → ℤ → (data_len_bytes : ℕ) → Run S ReturnCode → Run S ReturnCode
acquired rc data_len_bytes rest =
    if int_eq rc (pos 0) then (if data_len_bytes == 0 then pure ok else rest) else pure failure

module _ {N X : Type 0} (os : Os N) (m : Mmio X) where
  -- The first piece of a payload, and if it went the second one from `sa`.
  abbrev pub send_both : ClientConn → (t2h_buff first_len sa rest : ℕ) → Run (World N X) ReturnCode
  send_both client t2h_buff first_len sa rest = do
    rc ← socket_send_all_t2h_data os m client.t2h_data_fd t2h_buff first_len 0
    if is_ok rc then socket_send_all_t2h_data os m client.t2h_data_fd sa rest 0 else pure rc

  -- The payload goes out in one piece, or in two round the end of the memory.
  unfoldable pub send_t2h_payload :
      ClientConn → (t2h_buff data_len_bytes : ℕ) → Run (World N X) ReturnCode
  send_t2h_payload client t2h_buff data_len_bytes w =
      let b = w.conn.buff in
      let first_len =
        buff_len_to_wrap_boundary b.t2h_tx_buff b.t2h_tx_buff_sz t2h_buff data_len_bytes in
      if b.use_wrapping_data_buffers && not (first_len == 0)
      then send_both client t2h_buff first_len b.t2h_tx_buff (sub64 data_len_bytes first_len) w
      else socket_send_all_t2h_data os m client.t2h_data_fd t2h_buff data_len_bytes 0 w

  abbrev pub t2h_complete : Run (World N X) (Unit {0})
  t2h_complete w = elim w.conn.hw_callbacks.t2h_data_complete [
    | none ↦ some (tt, w)
    | some complete ↦ on_dev complete w
  ]

  -- The frame in `t2h_header_buff` and its payload; the descriptor is given back once all is sent.
  unfoldable pub send_t2h : ClientConn → (data_len_bytes t2h_buff : ℕ) → Run (World N X) ReturnCode
  send_t2h client data_len_bytes t2h_buff = do
    set_conn (λ c. record c {
      pkt_stats = record (c.pkt_stats) { t2h_cnt = u64 (c.pkt_stats.t2h_cnt + 1) };
    })
    w ← get
    (sent, _) ←
        on_os (socket_send_all os client.t2h_data_fd w.conn.buff.t2h_header_buff header_bytes 0)
    if is_ok sent
        then (do
          rc ← send_t2h_payload client t2h_buff data_len_bytes
          if is_ok rc then t2h_complete >> pure rc else pure rc)
        else pure sent

  -- One call of the callback: its header goes behind the guard band.
  unfoldable pub acquire_t2h :
      (H2tPacketHeader → ℕ → Run (Device X) (ℤ × H2tPacketHeader × ℕ))
      → ClientConn
      → Run (World N X) ReturnCode
  acquire_t2h acquire client w =
      (do
        let bytes = w.conn.buff.t2h_header_buff
        let at = sizeof_packet_guardband
        (rc, header, t2h_buff) ← on_dev (acquire (h2t_header_at bytes at) 0)
        bytes' ← string (
            blit bytes at
              (bytes_of header.sop_eop header.conn_id header.channel header.data_len_bytes))
        set_buff (λ b. record b { t2h_header_buff = bytes' })
        acquired rc header.data_len_bytes (send_t2h client header.data_len_bytes t2h_buff))
        w

  -- A NULL callback is a fault; `handle_client` tests it first.
  unfoldable pub process_t2h_data : ClientConn → Run (World N X) ReturnCode
  process_t2h_data client w = elim w.conn.hw_callbacks.acquire_t2h_data [
    | none ↦ none
    | some acquire ↦ acquire_t2h acquire client w
  ]
