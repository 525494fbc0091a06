-- ===== src/Server/Framed/Data.antt =====
-- The data path of streaming/src/intel_st_debug_if_server.c and the framed buffers.
use remote_debug_for_intel_f.Prelude.{
  ℕ, inl, inr, some, ◌>>=◌, ◌>>◌, pure, sub64, u32, Option-cases,
}
use remote_debug_for_intel_f.Prelude.Int.{ℤ}
use remote_debug_for_intel_f.Packet.{H2tPacketHeader}
use remote_debug_for_intel_f.Mmio.{Mmio}
use remote_debug_for_intel_f.Os.{Os}
use remote_debug_for_intel_f.Sockets.{ok, socket_recv_accumulate}
use remote_debug_for_intel_f.Sockets.Recv.Size.{socket_recv_accumulate_size}
use remote_debug_for_intel_f.Server.{ServerBuffers, World, ClientConn, on_os, on_dev}
use remote_debug_for_intel_f.Server.Keeps.{
  Keeps, Keeps-elim, Keeps-if-at, Keeps-read, Keeps-pure, Keeps-fault, Keeps-set_conn, keeps_rules,
  some-none, returned,
}
use remote_debug_for_intel_f.Server.Framed.{IsFramed, h2t-IsFramed}
use remote_debug_for_intel_f.Server.Wrap.{buff_len_to_wrap_boundary}
use remote_debug_for_intel_f.Server.H2t.{
  header_bytes, recv_and_copy, socket_recv_accumulate_h2t_data, copy_and_send,
  socket_send_all_t2h_data, recv_h2t_header, update_curr_h2t_header, poll_h2t_buffer, recv_both,
  recv_h2t_payload, loop_h2t_back, hand_over, push_h2t, accept_h2t, process_h2t_data,
}

module _ {N X : Type 0} (start : ServerBuffers) (os : Os N) (m : Mmio X) where
  recv_piece-IsFramed :
      (fd : ℤ) (buff len flags : ℕ)
      → Keeps {N = N} {X = X}
          (IsFramed start)
          (socket_recv_accumulate_h2t_data os m fd buff len flags)
  unfolding socket_recv_accumulate_h2t_data
  recv_piece-IsFramed fd buff len flags =
      Keeps-elim (λ w. w.recv_buff) _ (λ host. recv_and_copy os m fd host buff len flags)
        Keeps-fault (λ host. search keeps_rules depth 30)

  pub send_piece-IsFramed :
      (fd : ℤ) (buff len flags : ℕ)
      → Keeps {N = N} {X = X} (IsFramed start) (socket_send_all_t2h_data os m fd buff len flags)
  unfolding socket_send_all_t2h_data
  send_piece-IsFramed fd buff len flags =
      Keeps-elim (λ w. w.send_buff) _ (λ host. copy_and_send os m fd host buff len flags)
        Keeps-fault (λ host. search keeps_rules depth 30)

  recv_h2t_header-IsFramed :
      (client : ClientConn) → Keeps {N = N} {X = X} (IsFramed start) (recv_h2t_header os m client)
  recv_h2t_header-IsFramed client = record {
    at = λ w a w' h e.
        elim (Option-cases (
          socket_recv_accumulate os client.h2t_data_fd w.conn.buff.h2t_header_buff header_bytes 0
            w.os)) [
              | inl fails ↦ absurd (some-none (rw (on_os, fails, ◌>>=◌) at e))
              | inr (((rc, k, bytes), s), here) ↦
                  returned (IsFramed start)
                    (record w {
                      conn = record (w.conn) {
                        buff = record (w.conn.buff) { h2t_header_buff = bytes };
                      };
                      os = s;
                    })
                    w' (rw (on_os, here, ◌>>=◌, ◌>>◌) at e)
                    (h2t-IsFramed start w.conn.buff h bytes (
                      socket_recv_accumulate_size os client.h2t_data_fd w.conn.buff.h2t_header_buff
                        header_bytes 0 w.os rc k bytes s here))
            ];
  }

  update_curr_h2t_header-IsFramed :
      (client : ClientConn)
      → Keeps {N = N} {X = X} (IsFramed start) (update_curr_h2t_header os m client)
  unfolding update_curr_h2t_header
  update_curr_h2t_header-IsFramed client =
      Keeps-if-at _ (λ w. recv_h2t_header os m client) (λ w. pure ok)
        (λ w. recv_h2t_header-IsFramed client) (λ w. Keeps-pure ok)

  poll_h2t_buffer-IsFramed :
      (n : ℕ) → Keeps {N = N} {X = X} (IsFramed start) (poll_h2t_buffer os m n)
  unfolding poll_h2t_buffer
  poll_h2t_buffer-IsFramed n =
      Keeps-elim (λ w. w.conn.hw_callbacks.get_h2t_buffer) _ _
        (Keeps-read (λ w. w.conn.buff.h2t_rx_buff))
        (λ f.
          Keeps-if-at _ (λ w. on_dev (f n)) (λ w. λ w. some (w.conn.buff.h2t_rx_buff, w))
            (λ w. search keeps_rules) (λ w. Keeps-read (λ w. w.conn.buff.h2t_rx_buff)))

  recv_h2t_payload-IsFramed :
      (client : ClientConn) (a n : ℕ)
      → Keeps {N = N} {X = X} (IsFramed start) (recv_h2t_payload os m client a n)
  unfolding recv_h2t_payload
  recv_h2t_payload-IsFramed client a n =
      let first : World N X → ℕ =
        λ w. buff_len_to_wrap_boundary w.conn.buff.h2t_rx_buff w.conn.buff.h2t_rx_buff_sz a n in
      Keeps-if-at _
        (λ w. recv_both os m client a (first w) w.conn.buff.h2t_rx_buff (sub64 n (first w)))
        (λ w. socket_recv_accumulate_h2t_data os m client.h2t_data_fd a n 0)
        (λ w. search (keeps_rules, recv_piece-IsFramed) depth 30)
        (λ w. recv_piece-IsFramed client.h2t_data_fd a n 0)

  push_h2t-IsFramed :
      (header : H2tPacketHeader) (a : ℕ)
      → Keeps {N = N} {X = X} (IsFramed start) (push_h2t os m header a)
  unfolding push_h2t
  push_h2t-IsFramed header a =
      Keeps-elim (λ w. w.conn.hw_callbacks.h2t_data_received) _ (λ f. hand_over (f header (u32 a)))
        (Keeps-pure ok) (λ f. search keeps_rules depth 30)

  loop_h2t_back-IsFramed :
      (client : ClientConn) (a n : ℕ)
      → Keeps {N = N} {X = X} (IsFramed start) (loop_h2t_back os m client a n)
  unfolding loop_h2t_back
  loop_h2t_back-IsFramed client a n = search (keeps_rules, send_piece-IsFramed) depth 30

  accept_h2t-IsFramed :
      (client : ClientConn) (header : H2tPacketHeader) (a : ℕ)
      → Keeps {N = N} {X = X} (IsFramed start) (accept_h2t os m client header a)
  unfolding accept_h2t
  accept_h2t-IsFramed client header a =
      search
        (
          keeps_rules, Keeps-set_conn, recv_h2t_payload-IsFramed, push_h2t-IsFramed,
          loop_h2t_back-IsFramed,
        )
        depth 30

  pub process_h2t_data-IsFramed :
      (client : ClientConn) → Keeps {N = N} {X = X} (IsFramed start) (process_h2t_data os m client)
  unfolding process_h2t_data
  process_h2t_data-IsFramed client =
      search
        (
          keeps_rules, Keeps-set_conn, update_curr_h2t_header-IsFramed, poll_h2t_buffer-IsFramed,
          accept_h2t-IsFramed,
        )
        depth 30
