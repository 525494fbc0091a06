-- ===== src/Server/H2t/Faults.antt =====
-- What a payload that does not arrive does: process_h2t_data of
-- streaming/src/intel_st_debug_if_server.c once it has a buffer.
use remote_debug_for_intel_f.Prelude.{
  ℕ, ◌+◌, u64, ◌^◌, ◌≤◌, ◌<◌, ◌≡◌, ap, ◌∙◌, false, List, none, some, arith, ◌>>=◌, ◌>>◌, length,
  length-append,
}
use remote_debug_for_intel_f.Prelude.Int.{ℤ}
use remote_debug_for_intel_f.Packet.{H2tPacketHeader}
use remote_debug_for_intel_f.Mmio.{Mmio}
use remote_debug_for_intel_f.Os.{Os, IsStream}
use remote_debug_for_intel_f.Sockets.{
  ReturnCode, ok, failure, init_err, other, socket_recv_accumulate,
}
use remote_debug_for_intel_f.Sockets.Recv.{Ends, socket_recv_accumulate_lem}
use remote_debug_for_intel_f.Server.{ClientConn, World, on_os}
use remote_debug_for_intel_f.Server.Wrap.{buff_len_to_wrap_boundary}
use remote_debug_for_intel_f.Server.H2t.{
  socket_recv_accumulate_h2t_data, recv_and_copy, accept_h2t, push_h2t,
}
use remote_debug_for_intel_f.Server.H2t.Payload.{recv_h2t_payload-one}
use remote_debug_for_intel_f.Server.H2t.Delivery.{taken_up, accept_h2t-push}

module _ {N X : Type 0} {os : Os N} (st : IsStream os) (m : Mmio X) (fd : ℤ) where
  -- Fewer bytes are to come than were asked for.
  unmet :
      (len : ℕ) (s s' : N) (bs : List ℕ) (rc : ReturnCode)
      → length (st.pending fd s) < len
      → Ends st fd 0 rc len s bs s'
      → rc ≡ failure
  unmet len s s' bs ok h (all, e) =
      absurd (omega (arith, h, ap length e, all, length-append bs (st.pending fd s')))
  unmet len s s' bs failure h e = λ i. failure
  unmet len s s' bs init_err h e = absurd e
  unmet len s s' bs (other n) h e = absurd e

  nothing_copied :
      (w : World N X) (buff len : ℕ) (host host' : List ℕ) (rc : ReturnCode) (n : ℤ) (s : N)
      → w.recv_buff ≡ some host
      → rc ≡ failure
      → socket_recv_accumulate os fd host len 0 w.os ≡ some ((rc, n, host'), s)
      → socket_recv_accumulate_h2t_data os m fd buff len 0 w
        ≡ some (ok, record w { recv_buff = some host'; os = s })
  unfolding socket_recv_accumulate_h2t_data
  nothing_copied w buff len host host' rc n s here failed e =
      ap (λ o. elim o [ none ↦ none | some host ↦ recv_and_copy os m fd host buff len 0 w ]) here
      ∙ rw (on_os, e, failed, ◌>>=◌, ◌>>◌)

module _ {N X : Type 0} {os : Os N} (st : IsStream os) (m : Mmio X) (client : ClientConn) where
  -- A payload that does not arrive. Let a packet have its buffer, outside loopback mode, its
  -- payload in one piece and no longer than the receive buffer, and let a stream socket have fewer
  -- bytes to come than the payload. Then `accept_h2t` still goes on to call the h2t_data_received
  -- callback, with the packet counted, on a device that is as it was: nothing of the payload has
  -- been copied to it.
  pub accept_h2t-unreceived :
      (header : H2tPacketHeader) (a : ℕ) (w : World N X) (host : List ℕ)
      → w.recv_buff ≡ some host
      → header.data_len_bytes ≤ length host
      → header.data_len_bytes < 2 ^ 64
      → length (st.pending client.h2t_data_fd w.os) < header.data_len_bytes
      → w.conn.loopback_mode ≡ false
      → buff_len_to_wrap_boundary w.conn.buff.h2t_rx_buff w.conn.buff.h2t_rx_buff_sz a
          header.data_len_bytes
        ≡ 0
      → (host' : List ℕ) × (s' : N) × (accept_h2t os m client header a w
          ≡ push_h2t os m header a (record w {
            conn = record (w.conn) {
              pkt_stats = record (w.conn.pkt_stats) {
                h2t_cnt = u64 (w.conn.pkt_stats.h2t_cnt + 1);
              };
              h2t_waiting = false;
            };
            recv_buff = some host';
            os = s';
          }))
  accept_h2t-unreceived header a w host here room small short normal one =
      let n = header.data_len_bytes in
      let fd = client.h2t_data_fd in
      let w' = taken_up os m client header a w in
      let got = socket_recv_accumulate_lem st fd 0 n host w.os room small in
      let failed = unmet st m fd n w.os got.s' got.bs got.rc short got.ends in
      let after = record w' { recv_buff = some (got.buff); os = got.s' } in
      (
        got.buff,
        got.s',
        accept_h2t-push os m client header a w after
            (recv_h2t_payload-one os m client w' a n one
              ∙ nothing_copied st m fd w' a n host got.buff got.rc got.count got.s' here failed
                  got.returns)
            normal,
      )
