-- ===== src/Server/Mgmt.antt =====
-- The management path of streaming/src/intel_st_debug_if_server.c: update_curr_mgmt_header,
-- process_mgmt_data and process_mgmt_rsp_data. They cast an address of the hardware to a pointer of the
-- host, and no object of the host stands there: to use that pointer is a fault. Of no bytes nothing is
-- read or written.
use remote_debug_for_intel_f.Prelude.{
  u64, ℕ, ◌+◌, true, false, not, ◌&&◌, none, some, Run, ◌>>=◌, ◌>>◌, pure, get, fault, u32, sub64,
  ◌==◌, if◌then◌else◌, blit,
}
use remote_debug_for_intel_f.Prelude.Int.{ℤ}
use remote_debug_for_intel_f.Packet.{MgmtPacketHeader, mgmt_header_at, sizeof_packet_guardband}
use remote_debug_for_intel_f.Os.{Os}
use remote_debug_for_intel_f.Driver.{Device}
use remote_debug_for_intel_f.Sockets.{ReturnCode, ok, socket_send_all, socket_recv_accumulate}
use remote_debug_for_intel_f.Server.{ClientConn, World, on_os, on_dev, set_conn, set_buff}
use remote_debug_for_intel_f.Server.Wrap.{buff_len_to_wrap_boundary}
use remote_debug_for_intel_f.Server.H2t.{is_ok, header_bytes, hand_over}
use remote_debug_for_intel_f.Server.Params.{string}
use remote_debug_for_intel_f.Server.T2h.{bytes_of, acquired}

-- socket_recv_accumulate and socket_send_all on `len` bytes at such an address.
abbrev pub at_address : {S : Type 0} → (len : ℕ) → Run S ReturnCode
at_address len = if len == 0 then pure ok else fault

module _ {N X : Type 0} (os : Os N) where
  -- The header of the next packet.
  abbrev pub recv_mgmt_header : ClientConn → Run (World N X) ReturnCode
  recv_mgmt_header client w =
      (do
        (rc, _, bytes) ←
            on_os
              (socket_recv_accumulate os client.mgmt_fd w.conn.buff.mgmt_header_buff header_bytes 0)
        set_buff (λ b. record b { mgmt_header_buff = bytes })
        pure rc)
        w

  unfoldable pub update_curr_mgmt_header : ClientConn → Run (World N X) ReturnCode
  update_curr_mgmt_header client w =
      if not w.conn.mgmt_waiting then recv_mgmt_header client w else some (ok, w)

  -- `mgmt_buff`: the callback's answer, or the start of the memory in loopback mode.
  unfoldable pub poll_mgmt_buffer : (bytes_to_transfer : ℕ) → Run (World N X) ℕ
  poll_mgmt_buffer bytes_to_transfer w = elim w.conn.hw_callbacks.get_mgmt_buffer [
    | none ↦ some (w.conn.buff.mgmt_rx_buff, w)
    | some get_mgmt_buffer ↦
        if not w.conn.loopback_mode
        then on_dev (get_mgmt_buffer bytes_to_transfer) w
        else some (w.conn.buff.mgmt_rx_buff, w)
  ]

  abbrev pub both_pieces : (first_len rest : ℕ) → Run (World N X) ReturnCode
  both_pieces first_len rest = do
    rc ← at_address first_len
    if is_ok rc then at_address rest else pure rc

  -- In one piece, or in two round the end of the memory at `sa`.
  abbrev pub in_pieces : (sa sz buff data_len_bytes : ℕ) → Run (World N X) ReturnCode
  in_pieces sa sz buff data_len_bytes w =
      let first_len = buff_len_to_wrap_boundary sa sz buff data_len_bytes in
      if w.conn.buff.use_wrapping_data_buffers && not (first_len == 0)
      then both_pieces first_len (sub64 data_len_bytes first_len) w
      else at_address data_len_bytes w

  unfoldable pub push_mgmt : MgmtPacketHeader → (mgmt_buff : ℕ) → Run (World N X) ReturnCode
  push_mgmt header mgmt_buff w = elim w.conn.hw_callbacks.mgmt_data_received [
    | none ↦ some (ok, w)
    | some received ↦ hand_over (received header (u32 mgmt_buff)) w
  ]

  -- What `process_mgmt_data` does once it has a buffer.
  unfoldable pub accept_mgmt :
      ClientConn → MgmtPacketHeader → (mgmt_buff : ℕ) → Run (World N X) ReturnCode
  accept_mgmt client header mgmt_buff = do
    set_conn (λ c. record c {
      pkt_stats = record (c.pkt_stats) { mgmt_cnt = u64 (c.pkt_stats.mgmt_cnt + 1) };
      mgmt_waiting = false;
    })
    w ← get
    rc ←
        in_pieces w.conn.buff.mgmt_rx_buff w.conn.buff.mgmt_rx_buff_sz mgmt_buff
          header.data_len_bytes
    if is_ok rc
        then (if not w.conn.loopback_mode then push_mgmt header mgmt_buff else (do
          (sent, _) ←
              on_os
                (socket_send_all os client.mgmt_rsp_fd w.conn.buff.mgmt_header_buff header_bytes 0)
          if is_ok sent then at_address header.data_len_bytes else pure sent))
        else pure rc

  unfoldable pub process_mgmt_data : ClientConn → Run (World N X) ReturnCode
  process_mgmt_data client = do
    has_error ← update_curr_mgmt_header client
    w ← get
    let header = mgmt_header_at w.conn.buff.mgmt_header_buff sizeof_packet_guardband
    if is_ok has_error
        then (do
          mgmt_buff ← poll_mgmt_buffer header.data_len_bytes
          if mgmt_buff == 0
              then set_conn (λ c. record c { mgmt_waiting = true }) >> pure ok
              else accept_mgmt client header mgmt_buff)
        else pure has_error

  abbrev pub mgmt_complete : Run (World N X) (Unit {0})
  mgmt_complete w = elim w.conn.hw_callbacks.mgmt_rsp_data_complete [
    | none ↦ some (tt, w)
    | some complete ↦ on_dev complete w
  ]

  -- The frame in `mgmt_rsp_header_buff` and its payload.
  unfoldable pub send_mgmt_rsp :
      ClientConn → (data_len_bytes mgmt_rsp_buff : ℕ) → Run (World N X) ReturnCode
  send_mgmt_rsp client data_len_bytes mgmt_rsp_buff = do
    set_conn (λ c. record c {
      pkt_stats = record (c.pkt_stats) { mgmt_rsp_cnt = u64 (c.pkt_stats.mgmt_rsp_cnt + 1) };
    })
    w ← get
    let b = w.conn.buff
    (sent, _) ← on_os (socket_send_all os client.mgmt_rsp_fd b.mgmt_rsp_header_buff header_bytes 0)
    if is_ok sent
        then (do
          rc ← in_pieces b.mgmt_rsp_tx_buff b.mgmt_rsp_tx_buff_sz mgmt_rsp_buff data_len_bytes
          if is_ok rc then mgmt_complete >> pure rc else pure rc)
        else pure sent

  -- One call of the callback: its header goes behind the guard band.
  unfoldable pub acquire_mgmt_rsp :
      (MgmtPacketHeader → ℕ → Run (Device X) (ℤ × MgmtPacketHeader × ℕ))
      → ClientConn
      → Run (World N X) ReturnCode
  acquire_mgmt_rsp acquire client w =
      (do
        let bytes = w.conn.buff.mgmt_rsp_header_buff
        let at = sizeof_packet_guardband
        (rc, header, mgmt_rsp_buff) ← on_dev (acquire (mgmt_header_at bytes at) 0)
        bytes' ← string (
            blit bytes at
              (bytes_of header.sop_eop header.reserved header.channel header.data_len_bytes))
        set_buff (λ b. record b { mgmt_rsp_header_buff = bytes' })
        acquired rc header.data_len_bytes
            (send_mgmt_rsp client header.data_len_bytes mgmt_rsp_buff))
        w

  -- A NULL callback is a fault; `handle_client` tests it first.
  unfoldable pub process_mgmt_rsp_data : ClientConn → Run (World N X) ReturnCode
  process_mgmt_rsp_data client w = elim w.conn.hw_callbacks.acquire_mgmt_rsp_data [
    | none ↦ none
    | some acquire ↦ acquire_mgmt_rsp acquire client w
  ]
