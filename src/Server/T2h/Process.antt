-- ===== src/Server/T2h/Process.antt =====
-- process_t2h_data of streaming/src/intel_st_debug_if_server.c as a whole.
use remote_debug_for_intel_f.Prelude.{
  ℕ, subst, ◌+◌, ◌≤◌, ◌<◌, ◌≡◌, refl, sym, ap, ◌∙◌, Bool, List, ◌++◌, Option, none, some, arith,
  Run, ◌>>=◌, ◌>>◌, length, blit, nonzero,
}
use remote_debug_for_intel_f.Prelude.Int.{ℤ, pos}
use remote_debug_for_intel_f.Packet.{
  H2tPacketHeader, h2t_header_at, sizeof_packet_guardband, packet_guardband,
}
use remote_debug_for_intel_f.Mmio.{Mmio}
use remote_debug_for_intel_f.Os.{Os, IsStream, KeepsSent}
use remote_debug_for_intel_f.Driver.{Device}
use remote_debug_for_intel_f.Sockets.{ReturnCode}
use remote_debug_for_intel_f.Server.{World, ClientConn, on_dev}
use remote_debug_for_intel_f.Server.Wrap.Around.{around}
use remote_debug_for_intel_f.Server.T2h.{bytes_of, acquire_t2h, send_t2h, process_t2h_data}
use remote_debug_for_intel_f.Server.T2h.Frames.{HasRing, send_t2h_payload_lem}
use remote_debug_for_intel_f.Server.T2h.Delivery.{
  Delivered, send_t2h_lem, complete_answers, counted,
}
use remote_debug_for_intel_f.Server.T2h.Guardband.{HasGuardband, blit-HasGuardband}
use remote_debug_for_intel_f.Interfaces.{InterfaceVec}
use remote_debug_for_intel_f.Uio.Access.{ram, uio_mmio}

abbrev pub fields : H2tPacketHeader → List ℕ
fields header = bytes_of header.sop_eop header.conn_id header.channel header.data_len_bytes

module _ {N X : Type 0} (os : Os N) (m : Mmio X) (client : ClientConn) (w : World N X) where
  -- The world with a frame header in place.
  abbrev headed : List ℕ → Device X → World N X
  headed bytes d = record w {
    conn = record (w.conn) { buff = record (w.conn.buff) { t2h_header_buff = bytes } };
    dev = d;
  }

  -- A descriptor with data.
  acquired_data :
      (acquire : H2tPacketHeader → ℕ → Run (Device X) (ℤ × H2tPacketHeader × ℕ))
      (header : H2tPacketHeader) (a : ℕ) (d : Device X) (bytes : List ℕ)
      → w.conn.hw_callbacks.acquire_t2h_data ≡ some acquire
      → acquire (h2t_header_at w.conn.buff.t2h_header_buff sizeof_packet_guardband) 0 w.dev
        ≡ some ((pos 0, header, a), d)
      → blit w.conn.buff.t2h_header_buff sizeof_packet_guardband (fields header) ≡ some bytes
      → 0 < header.data_len_bytes
      → process_t2h_data os m client w
        ≡ send_t2h os m client header.data_len_bytes a (headed bytes d)
  unfolding process_t2h_data acquire_t2h
  acquired_data acquire header a d bytes here answer stored some_data =
      let fault : Option (ReturnCode × World N X) = none in
      ap (λ o. elim o [ none ↦ fault | some f ↦ acquire_t2h os m f client w ]) here
      ∙ rw (answer, ◌>>=◌, ◌>>◌, on_dev, stored, nonzero header.data_len_bytes some_data) refl

module _ {N : Type 0} {os : Os N} (st : IsStream os) (keeps : KeepsSent st) (start delta : ℕ)
    (v : InterfaceVec) (handle : ℤ) (emulate : Bool) (client : ClientConn) where
  -- From the driver to the client's socket. Let the T2H header buffer hold a guard band; let the
  -- acquire_t2h_data callback give 0 and a header with a length other than 0, at the offset `o` of
  -- the T2H ring, and the t2h_data_complete callback succeed after it. Let the ring lie in plain
  -- memory of bytes below the address 2^31, with seven bytes behind it, and be no shorter than the
  -- payload, and let the send buffer have seven bytes more than the ring. Then, on a stream socket
  -- of which a failed `send` takes nothing, `process_t2h_data` returns OK or FAILURE. With OK the
  -- socket has in the end taken exactly the guard band, the six bytes of the header and the payload
  -- from `o` on round the end of the ring, and the descriptor has been given back. With FAILURE it
  -- has in the end taken a proper prefix of them, the state of the system is what a call of `send`
  -- left that took nothing, and the descriptor has not been given back.
  pub process_t2h_data-Delivered :
      (w : World N (Option (List ℕ)))
      (acquire : H2tPacketHeader → ℕ → Run (Device (Option (List ℕ))) (ℤ × H2tPacketHeader × ℕ))
      (complete : Run (Device (Option (List ℕ))) (Unit {0})) (header : H2tPacketHeader) (o : ℕ)
      (d d' : Device (Option (List ℕ))) (before ring after host : List ℕ)
      → HasGuardband w.conn.buff.t2h_header_buff
      → w.conn.hw_callbacks.acquire_t2h_data ≡ some acquire
      → w.conn.hw_callbacks.t2h_data_complete ≡ some complete
      → acquire (h2t_header_at w.conn.buff.t2h_header_buff sizeof_packet_guardband) 0 w.dev
        ≡ some ((pos 0, header, w.conn.buff.t2h_tx_buff + o), d)
      → complete d ≡ some (tt, d')
      → HasRing st start delta v handle emulate client (record w { dev = d }) before ring after host
      → 0 < header.data_len_bytes
      → header.data_len_bytes ≤ w.conn.buff.t2h_tx_buff_sz
      → o < w.conn.buff.t2h_tx_buff_sz
      → Delivered st client w.os
          (packet_guardband ++ (fields header ++ around o header.data_len_bytes ring))
          d
          d'
          (process_t2h_data os (uio_mmio (ram start) v emulate) client w)
  process_t2h_data-Delivered w acquire complete header o d d' before ring after host g here there
        answer completed r some_data fits inside =
      let m = uio_mmio (ram start) v emulate in
      let n = header.data_len_bytes in
      let a = w.conn.buff.t2h_tx_buff + o in
      let bytes = packet_guardband ++ fields header in
      let w' = headed os m client w bytes d in
      subst (λ out. Delivered st client w.os (bytes ++ around o n ring) d d' out)
        (sym (
          acquired_data os m client w acquire header a d bytes here answer
            (blit-HasGuardband w.conn.buff.t2h_header_buff (fields header) g refl) some_data))
        (send_t2h_lem st client keeps m n a (length host) w' (around o n ring) d' (omega arith)
          (λ s.
            send_t2h_payload_lem st start delta v handle emulate client
              (counted os m client n a w' s) before ring after host
              (record {
                placed = r.placed;
                front = r.front;
                span = r.span;
                spare = r.spare;
                low = r.low;
                wraps = r.wraps;
                buffer = r.buffer;
                room = r.room;
              })
              o n inside fits)
          (λ w'' same dev.
            complete_answers os m w'' complete d' (ap (λ c. c.t2h_data_complete) same ∙ there)
              (ap complete dev ∙ completed)))
