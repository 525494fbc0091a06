-- ===== src/Server/Framed/Mgmt.antt =====
-- The management path of streaming/src/intel_st_debug_if_server.c and the framed buffers.
use remote_debug_for_intel_f.Prelude.{
  ℕ, refl, inl, inr, some, Run, ◌>>=◌, ◌>>◌, pure, sub64, u32, Option-cases, ◌++◌,
}
use remote_debug_for_intel_f.Prelude.Int.{ℤ}
use remote_debug_for_intel_f.Packet.{
  MgmtPacketHeader, mgmt_header_at, sizeof_packet_guardband, packet_guardband,
}
use remote_debug_for_intel_f.Os.{Os}
use remote_debug_for_intel_f.Driver.{Device}
use remote_debug_for_intel_f.Sockets.{ok}
use remote_debug_for_intel_f.Server.{ServerBuffers, ClientConn, on_os, on_dev}
use remote_debug_for_intel_f.Server.Keeps.{
  Keeps, Keeps-elim, Keeps-if-at, Keeps-read, Keeps-pure, Keeps-fault, Keeps-set_conn, keeps_rules,
  some-none, returned,
}
use remote_debug_for_intel_f.Server.Framed.{IsFramed, mgmt-IsFramed, mgmt_rsp-IsFramed}
use remote_debug_for_intel_f.Server.Framed.Frames.{acquired-Keeps}
use remote_debug_for_intel_f.Sockets.{socket_recv_accumulate}
use remote_debug_for_intel_f.Sockets.Recv.Size.{socket_recv_accumulate_size}
use remote_debug_for_intel_f.Server.Wrap.{buff_len_to_wrap_boundary}
use remote_debug_for_intel_f.Server.T2h.{bytes_of}
use remote_debug_for_intel_f.Server.H2t.{header_bytes, hand_over}
use remote_debug_for_intel_f.Server.Mgmt.{
  at_address, recv_mgmt_header, update_curr_mgmt_header, poll_mgmt_buffer, both_pieces, in_pieces,
  push_mgmt, accept_mgmt, process_mgmt_data, mgmt_complete, send_mgmt_rsp, acquire_mgmt_rsp,
  process_mgmt_rsp_data,
}
use remote_debug_for_intel_f.Server.T2h.Guardband.{blit-HasGuardband, framed-HasGuardband}

module _ {N X : Type 0} (start : ServerBuffers) (os : Os N) (client : ClientConn) where
  at_address-IsFramed : (len : ℕ) → Keeps {N = N} {X = X} (IsFramed start) (at_address len)
  at_address-IsFramed len = search keeps_rules depth 30

  in_pieces-IsFramed :
      (sa sz buff n : ℕ) → Keeps {N = N} {X = X} (IsFramed start) (in_pieces os sa sz buff n)
  in_pieces-IsFramed sa sz buff n =
      let first = buff_len_to_wrap_boundary sa sz buff n in
      Keeps-if-at _ (λ w. both_pieces os first (sub64 n first)) (λ w. at_address n)
        (λ w. search (keeps_rules, at_address-IsFramed) depth 30) (λ w. at_address-IsFramed n)

  recv_mgmt_header-IsFramed : Keeps {N = N} {X = X} (IsFramed start) (recv_mgmt_header os client)
  recv_mgmt_header-IsFramed = record {
    at = λ w a w' h e.
        elim (Option-cases (
          socket_recv_accumulate os client.mgmt_fd w.conn.buff.mgmt_header_buff header_bytes 0
            w.os)) [
              | inl fails ↦ absurd (some-none (rw (on_os, fails, ◌>>=◌) at e))
              | inr (((rc, k, bytes), s), here) ↦
                  returned (IsFramed start)
                    (record w {
                      conn = record (w.conn) {
                        buff = record (w.conn.buff) { mgmt_header_buff = bytes };
                      };
                      os = s;
                    })
                    w' (rw (on_os, here, ◌>>=◌, ◌>>◌) at e)
                    (mgmt-IsFramed start w.conn.buff h bytes (
                      socket_recv_accumulate_size os client.mgmt_fd w.conn.buff.mgmt_header_buff
                        header_bytes 0 w.os rc k bytes s here))
            ];
  }

  update_curr_mgmt_header-IsFramed :
      Keeps {N = N} {X = X} (IsFramed start) (update_curr_mgmt_header os client)
  unfolding update_curr_mgmt_header
  update_curr_mgmt_header-IsFramed =
      Keeps-if-at _ (λ w. recv_mgmt_header os client) (λ w. pure ok)
        (λ w. recv_mgmt_header-IsFramed) (λ w. Keeps-pure ok)

  poll_mgmt_buffer-IsFramed :
      (n : ℕ) → Keeps {N = N} {X = X} (IsFramed start) (poll_mgmt_buffer os n)
  unfolding poll_mgmt_buffer
  poll_mgmt_buffer-IsFramed n =
      Keeps-elim (λ w. w.conn.hw_callbacks.get_mgmt_buffer) _ _
        (Keeps-read (λ w. w.conn.buff.mgmt_rx_buff))
        (λ f.
          Keeps-if-at _ (λ w. on_dev (f n)) (λ w. λ w. some (w.conn.buff.mgmt_rx_buff, w))
            (λ w. search keeps_rules) (λ w. Keeps-read (λ w. w.conn.buff.mgmt_rx_buff)))

  push_mgmt-IsFramed :
      (header : MgmtPacketHeader) (a : ℕ)
      → Keeps {N = N} {X = X} (IsFramed start) (push_mgmt os header a)
  unfolding push_mgmt
  push_mgmt-IsFramed header a =
      Keeps-elim (λ w. w.conn.hw_callbacks.mgmt_data_received) _ (λ f. hand_over (f header (u32 a)))
        (Keeps-pure ok) (λ f. search keeps_rules depth 30)

  accept_mgmt-IsFramed :
      (header : MgmtPacketHeader) (a : ℕ)
      → Keeps {N = N} {X = X} (IsFramed start) (accept_mgmt os client header a)
  unfolding accept_mgmt
  accept_mgmt-IsFramed header a =
      search
        (keeps_rules, Keeps-set_conn, in_pieces-IsFramed, at_address-IsFramed, push_mgmt-IsFramed)
        depth 30

  pub process_mgmt_data-IsFramed :
      Keeps {N = N} {X = X} (IsFramed start) (process_mgmt_data os client)
  unfolding process_mgmt_data
  process_mgmt_data-IsFramed =
      search
        (
          keeps_rules, Keeps-set_conn, update_curr_mgmt_header-IsFramed, poll_mgmt_buffer-IsFramed,
          accept_mgmt-IsFramed,
        )
        depth 30

  mgmt_complete-IsFramed : Keeps {N = N} {X = X} (IsFramed start) (mgmt_complete os)
  mgmt_complete-IsFramed =
      Keeps-elim (λ w. w.conn.hw_callbacks.mgmt_rsp_data_complete) _ (λ f. on_dev f) (Keeps-pure tt)
        (λ f. search keeps_rules)

  send_mgmt_rsp-IsFramed :
      (n a : ℕ) → Keeps {N = N} {X = X} (IsFramed start) (send_mgmt_rsp os client n a)
  unfolding send_mgmt_rsp
  send_mgmt_rsp-IsFramed n a =
      search (keeps_rules, Keeps-set_conn, in_pieces-IsFramed, mgmt_complete-IsFramed) depth 30

  acquire_mgmt_rsp-IsFramed :
      (acquire : MgmtPacketHeader → ℕ → Run (Device X) (ℤ × MgmtPacketHeader × ℕ))
      → Keeps {N = N} {X = X} (IsFramed start) (acquire_mgmt_rsp os acquire client)
  unfolding acquire_mgmt_rsp
  acquire_mgmt_rsp-IsFramed acquire = record {
    at = λ w a w' h e.
        let bytes = w.conn.buff.mgmt_rsp_header_buff in
        elim (Option-cases (acquire (mgmt_header_at bytes sizeof_packet_guardband) 0 w.dev)) [
          | inl fails ↦ absurd (some-none (rw (on_dev, fails, ◌>>=◌) at e))
          | inr (((rc, header, buff), d), here) ↦
              let fields =
                bytes_of header.sop_eop header.reserved header.channel header.data_len_bytes in
              (acquired-Keeps (IsFramed start) rc header.data_len_bytes
                  (send_mgmt_rsp os client header.data_len_bytes buff)
                  (send_mgmt_rsp-IsFramed header.data_len_bytes buff)).at
                (record w {
                  conn = record (w.conn) {
                    buff = record (w.conn.buff) {
                      mgmt_rsp_header_buff = packet_guardband ++ fields;
                    };
                  };
                  dev = d;
                })
                a w'
                (mgmt_rsp-IsFramed start w.conn.buff h (packet_guardband ++ fields)
                  (framed-HasGuardband fields refl))
                (rw (on_dev, here, ◌>>=◌, ◌>>◌, blit-HasGuardband bytes fields h.mgmt_rsp refl) at
                  e)
        ];
  }

  pub process_mgmt_rsp_data-IsFramed :
      Keeps {N = N} {X = X} (IsFramed start) (process_mgmt_rsp_data os client)
  unfolding process_mgmt_rsp_data
  process_mgmt_rsp_data-IsFramed =
      Keeps-elim (λ w. w.conn.hw_callbacks.acquire_mgmt_rsp_data) _
        (λ f. acquire_mgmt_rsp os f client) Keeps-fault acquire_mgmt_rsp-IsFramed
