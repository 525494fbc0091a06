-- ===== src/Server/Framed/Frames.antt =====
-- The frames that streaming/src/intel_st_debug_if_server.c sends and the framed buffers.
use remote_debug_for_intel_f.Prelude.{
  ℕ, refl, inl, inr, Run, ◌>>=◌, ◌>>◌, sub64, Option-cases, ◌++◌,
}
use remote_debug_for_intel_f.Prelude.Int.{ℤ}
use remote_debug_for_intel_f.Packet.{
  H2tPacketHeader, h2t_header_at, sizeof_packet_guardband, packet_guardband,
}
use remote_debug_for_intel_f.Mmio.{Mmio}
use remote_debug_for_intel_f.Os.{Os}
use remote_debug_for_intel_f.Driver.{Device}
use remote_debug_for_intel_f.Sockets.{ReturnCode}
use remote_debug_for_intel_f.Server.{ServerBuffers, World, ClientConn, on_dev}
use remote_debug_for_intel_f.Server.Keeps.{
  Keeps, Keeps-elim, Keeps-if-at, Keeps-pure, Keeps-fault, Keeps-set_conn, keeps_rules, some-none,
}
use remote_debug_for_intel_f.Server.Framed.{IsFramed, t2h-IsFramed}
use remote_debug_for_intel_f.Server.Framed.Data.{send_piece-IsFramed}
use remote_debug_for_intel_f.Server.Wrap.{buff_len_to_wrap_boundary}
use remote_debug_for_intel_f.Server.H2t.{socket_send_all_t2h_data}
use remote_debug_for_intel_f.Server.T2h.{
  bytes_of, acquired, send_both, send_t2h_payload, t2h_complete, send_t2h, acquire_t2h,
  process_t2h_data,
}
use remote_debug_for_intel_f.Server.T2h.Guardband.{blit-HasGuardband, framed-HasGuardband}

pub acquired-Keeps :
    {N X : Type 0} (P : ServerBuffers → Type 0) (rc : ℤ) (n : ℕ) (rest : Run (World N X) ReturnCode)
    → Keeps P rest
    → Keeps P (acquired rc n rest)
acquired-Keeps P rc n rest h = search keeps_rules depth 30

module _ {N X : Type 0} (start : ServerBuffers) (os : Os N) (m : Mmio X) (client : ClientConn) where
  send_t2h_payload-IsFramed :
      (a n : ℕ) → Keeps {N = N} {X = X} (IsFramed start) (send_t2h_payload os m client a n)
  unfolding send_t2h_payload
  send_t2h_payload-IsFramed a n =
      let first : World N X → ℕ =
        λ w. buff_len_to_wrap_boundary w.conn.buff.t2h_tx_buff w.conn.buff.t2h_tx_buff_sz a n in
      Keeps-if-at _
        (λ w. send_both os m client a (first w) w.conn.buff.t2h_tx_buff (sub64 n (first w)))
        (λ w. socket_send_all_t2h_data os m client.t2h_data_fd a n 0)
        (λ w. search (keeps_rules, send_piece-IsFramed) depth 30)
        (λ w. send_piece-IsFramed start os m client.t2h_data_fd a n 0)

  t2h_complete-IsFramed : Keeps {N = N} {X = X} (IsFramed start) (t2h_complete os m)
  t2h_complete-IsFramed =
      Keeps-elim (λ w. w.conn.hw_callbacks.t2h_data_complete) _ (λ f. on_dev f) (Keeps-pure tt)
        (λ f. search keeps_rules)

  send_t2h-IsFramed : (n a : ℕ) → Keeps {N = N} {X = X} (IsFramed start) (send_t2h os m client n a)
  unfolding send_t2h
  send_t2h-IsFramed n a =
      search (keeps_rules, Keeps-set_conn, send_t2h_payload-IsFramed, t2h_complete-IsFramed) depth
        30

  acquire_t2h-IsFramed :
      (acquire : H2tPacketHeader → ℕ → Run (Device X) (ℤ × H2tPacketHeader × ℕ))
      → Keeps {N = N} {X = X} (IsFramed start) (acquire_t2h os m acquire client)
  unfolding acquire_t2h
  acquire_t2h-IsFramed acquire = record {
    at = λ w a w' h e.
        let bytes = w.conn.buff.t2h_header_buff in
        elim (Option-cases (acquire (h2t_header_at bytes sizeof_packet_guardband) 0 w.dev)) [
          | inl fails ↦ absurd (some-none (rw (on_dev, fails, ◌>>=◌) at e))
          | inr (((rc, header, buff), d), here) ↦
              let fields =
                bytes_of header.sop_eop header.conn_id header.channel header.data_len_bytes in
              (acquired-Keeps (IsFramed start) rc header.data_len_bytes
                  (send_t2h os m client header.data_len_bytes buff)
                  (send_t2h-IsFramed header.data_len_bytes buff)).at
                (record w {
                  conn = record (w.conn) {
                    buff = record (w.conn.buff) { t2h_header_buff = packet_guardband ++ fields };
                  };
                  dev = d;
                })
                a w'
                (t2h-IsFramed start w.conn.buff h (packet_guardband ++ fields)
                  (framed-HasGuardband fields refl))
                (rw (on_dev, here, ◌>>=◌, ◌>>◌, blit-HasGuardband bytes fields h.t2h refl) at e)
        ];
  }

  pub process_t2h_data-IsFramed :
      Keeps {N = N} {X = X} (IsFramed start) (process_t2h_data os m client)
  unfolding process_t2h_data
  process_t2h_data-IsFramed =
      Keeps-elim (λ w. w.conn.hw_callbacks.acquire_t2h_data) _ (λ f. acquire_t2h os m f client)
        Keeps-fault acquire_t2h-IsFramed
