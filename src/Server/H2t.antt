-- ===== src/Server/H2t.antt =====
-- The host-to-target path of streaming/src/intel_st_debug_if_server.c (update_curr_h2t_header and
-- process_h2t_data), with the socket functions of streaming/src/intel_st_debug_if_sockets.c that copy
-- between a socket and the hardware.
pub mod Waiting
pub mod Ring
pub mod Pieces
pub mod Landing
pub mod Payload
pub mod Delivery
pub mod Tests
pub mod Faults
use remote_debug_for_intel_f.Prelude.{
  u64, ℕ, ◌+◌, ◌-◌, Bool, true, false, not, ◌&&◌, List, Option, none, some, Run, ◌>>=◌, ◌>>◌, pure,
  get, fault, u32, sub64, ◌==◌, if◌then◌else◌,
}
use remote_debug_for_intel_f.Prelude.Int.{ℤ}
use remote_debug_for_intel_f.Packet.{
  H2tPacketHeader, h2t_header_at, sizeof_packet_guardband, sizeof_packet_header,
}
use remote_debug_for_intel_f.Mmio.{Mmio}
use remote_debug_for_intel_f.Os.{Os}
use remote_debug_for_intel_f.Driver.{Device}
use remote_debug_for_intel_f.Sockets.{
  ReturnCode, ok, failure, to_return_code, socket_send_all, socket_recv_accumulate,
}
use remote_debug_for_intel_f.Driver.Copy.{memcpy64_fpga2host, memcpy64_host2fpga}
use remote_debug_for_intel_f.Server.{ClientConn, World, on_os, on_dev, set_conn, set_buff}
use remote_debug_for_intel_f.Server.Wrap.{buff_len_to_wrap_boundary}

-- `curr == OK`
abbrev pub is_ok : ReturnCode → Bool
is_ok ok = true
is_ok _ = false

abbrev pub is_failure : ReturnCode → Bool
is_failure failure = true
is_failure _ = false

abbrev pub header_bytes : ℕ
header_bytes = sizeof_packet_guardband + sizeof_packet_header

module _ {N X : Type 0} where
  abbrev pub set_recv_buff : List ℕ → Run (World N X) (Unit {0})
  set_recv_buff host w = some (tt, record w { recv_buff = some host })

  abbrev pub set_send_buff : List ℕ → Run (World N X) (Unit {0})
  set_send_buff host w = some (tt, record w { send_buff = some host })

  -- The value of a callback as a return code.
  abbrev pub hand_over : Run (Device X) ℤ → Run (World N X) ReturnCode
  hand_over received = do rc ← on_dev received; pure (to_return_code rc)

module _ {N X : Type 0} (os : Os N) (m : Mmio X) where
  -- The answer is OK also where the bytes were not received. The buffer is not NULL once the server
  -- runs; the model faults on NULL, whatever the length.
  abbrev pub recv_and_copy :
      (fd : ℤ) (host : List ℕ) (buff len flags : ℕ) → Run (World N X) ReturnCode
  recv_and_copy fd host buff len flags = do
    (rc, _, host') ← on_os (socket_recv_accumulate os fd host len flags)
    set_recv_buff host'
    if not (is_failure rc) then on_dev (memcpy64_host2fpga m host' buff len) else pure tt
    pure ok

  unfoldable pub socket_recv_accumulate_h2t_data :
      (fd : ℤ) (buff len flags : ℕ) → Run (World N X) ReturnCode
  socket_recv_accumulate_h2t_data fd buff len flags w = elim w.recv_buff [
    | none ↦ none
    | some host ↦ recv_and_copy fd host buff len flags w
  ]

  abbrev pub copy_and_send :
      (fd : ℤ) (host : List ℕ) (buff len flags : ℕ) → Run (World N X) ReturnCode
  copy_and_send fd host buff len flags = do
    host' ← on_dev (memcpy64_fpga2host m buff host len)
    set_send_buff host'
    (rc, _) ← on_os (socket_send_all os fd host' len flags)
    pure rc

  unfoldable pub socket_send_all_t2h_data :
      (fd : ℤ) (buff len flags : ℕ) → Run (World N X) ReturnCode
  socket_send_all_t2h_data fd buff len flags w = elim w.send_buff [
    | none ↦ none
    | some host ↦ copy_and_send fd host buff len flags w
  ]

  -- The header of the next packet.
  abbrev pub recv_h2t_header : ClientConn → Run (World N X) ReturnCode
  recv_h2t_header client w =
      (do
        (rc, _, bytes) ← on_os (
            socket_recv_accumulate os client.h2t_data_fd w.conn.buff.h2t_header_buff header_bytes 0)
        set_buff (λ b. record b { h2t_header_buff = bytes })
        pure rc)
        w

  unfoldable pub update_curr_h2t_header : ClientConn → Run (World N X) ReturnCode
  update_curr_h2t_header client w =
      if not w.conn.h2t_waiting then recv_h2t_header client w else some (ok, w)

  -- `h2t_buff`: the callback's answer, or the start of the memory in loopback mode.
  unfoldable pub poll_h2t_buffer : (bytes_to_transfer : ℕ) → Run (World N X) ℕ
  poll_h2t_buffer bytes_to_transfer w = elim w.conn.hw_callbacks.get_h2t_buffer [
    | none ↦ some (w.conn.buff.h2t_rx_buff, w)
    | some get_h2t_buffer ↦
        if not w.conn.loopback_mode
        then on_dev (get_h2t_buffer bytes_to_transfer) w
        else some (w.conn.buff.h2t_rx_buff, w)
  ]

  -- The first piece of a payload, and if it came the second one at `sa`.
  abbrev pub recv_both : ClientConn → (h2t_buff first_len sa rest : ℕ) → Run (World N X) ReturnCode
  recv_both client h2t_buff first_len sa rest = do
    rc ← socket_recv_accumulate_h2t_data client.h2t_data_fd h2t_buff first_len 0
    if is_ok rc then socket_recv_accumulate_h2t_data client.h2t_data_fd sa rest 0 else pure rc

  -- The payload goes to the buffer in one piece, or in two round the end of the memory.
  unfoldable pub recv_h2t_payload :
      ClientConn → (h2t_buff data_len_bytes : ℕ) → Run (World N X) ReturnCode
  recv_h2t_payload client h2t_buff data_len_bytes w =
      let b = w.conn.buff in
      let first_len =
        buff_len_to_wrap_boundary b.h2t_rx_buff b.h2t_rx_buff_sz h2t_buff data_len_bytes in
      if b.use_wrapping_data_buffers && not (first_len == 0)
      then recv_both client h2t_buff first_len b.h2t_rx_buff (sub64 data_len_bytes first_len) w
      else socket_recv_accumulate_h2t_data client.h2t_data_fd h2t_buff data_len_bytes 0 w

  -- The header and the payload go back to the client.
  unfoldable pub loop_h2t_back :
      ClientConn → (h2t_buff data_len_bytes : ℕ) → Run (World N X) ReturnCode
  loop_h2t_back client h2t_buff data_len_bytes = do
    w ← get
    (rc, _) ←
        on_os (socket_send_all os client.t2h_data_fd w.conn.buff.h2t_header_buff header_bytes 0)
    if is_ok rc
        then socket_send_all_t2h_data client.t2h_data_fd h2t_buff data_len_bytes 0
        else pure rc

  unfoldable pub push_h2t : H2tPacketHeader → (h2t_buff : ℕ) → Run (World N X) ReturnCode
  push_h2t header h2t_buff w = elim w.conn.hw_callbacks.h2t_data_received [
    | none ↦ some (ok, w)
    | some received ↦ hand_over (received header (u32 h2t_buff)) w
  ]

  -- What `process_h2t_data` does once it has a buffer.
  unfoldable pub accept_h2t :
      ClientConn → H2tPacketHeader → (h2t_buff : ℕ) → Run (World N X) ReturnCode
  accept_h2t client header h2t_buff = do
    set_conn (λ c. record c {
      pkt_stats = record (c.pkt_stats) { h2t_cnt = u64 (c.pkt_stats.h2t_cnt + 1) };
      h2t_waiting = false;
    })
    rc ← recv_h2t_payload client h2t_buff header.data_len_bytes
    w ← get
    if is_ok rc
        then (if not w.conn.loopback_mode
            then push_h2t header h2t_buff
            else loop_h2t_back client h2t_buff header.data_len_bytes)
        else pure rc

  unfoldable pub process_h2t_data : ClientConn → Run (World N X) ReturnCode
  process_h2t_data client = do
    has_error ← update_curr_h2t_header client
    w ← get
    let header = h2t_header_at w.conn.buff.h2t_header_buff sizeof_packet_guardband
    if is_ok has_error
        then (do
          h2t_buff ← poll_h2t_buffer header.data_len_bytes
          if h2t_buff == 0
              then set_conn (λ c. record c { h2t_waiting = true }) >> pure ok
              else accept_h2t client header h2t_buff)
        else pure has_error
