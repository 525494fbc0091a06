-- ===== src/Server/H2t/Waiting.antt =====
-- A packet that finds no buffer: its header is kept, and the packet is taken up later.
use remote_debug_for_intel_f.Prelude.{
  ℕ, ◌≡◌, refl, true, false, not, List, Option, none, some, Run, ◌>>=◌, ◌>>◌, nonzero, ◌<◌, ap, ◌∙◌,
  if◌then◌else◌,
}
use remote_debug_for_intel_f.Prelude.Int.{ℤ}
use remote_debug_for_intel_f.Packet.{h2t_header_at, sizeof_packet_guardband}
use remote_debug_for_intel_f.Mmio.{Mmio}
use remote_debug_for_intel_f.Os.{Os}
use remote_debug_for_intel_f.Driver.{Device}
use remote_debug_for_intel_f.Sockets.{ok, socket_recv_accumulate}
use remote_debug_for_intel_f.Server.{ClientConn, World, on_os, on_dev}
use remote_debug_for_intel_f.Server.H2t.{
  header_bytes, recv_h2t_header, update_curr_h2t_header, poll_h2t_buffer, accept_h2t,
  process_h2t_data,
}

-- The world once a header has come and its packet has found no buffer.
abbrev pub put_off :
    {N X : Type 0} → World N X → (bytes : List ℕ) (s : N) (d : Device X) → World N X
put_off w bytes s d = record w {
  conn = record (w.conn) {
    buff = record (w.conn.buff) { h2t_header_buff = bytes };
    h2t_waiting = true;
  };
  os = s;
  dev = d;
}

abbrev pub data_len : List ℕ → ℕ
data_len bytes = (h2t_header_at bytes sizeof_packet_guardband).data_len_bytes

module _ {N X : Type 0} (os : Os N) (m : Mmio X) (client : ClientConn) (w : World N X) where
  pub header_comes :
      {bytes : List ℕ} {n : ℤ} {s : N}
      → w.conn.h2t_waiting ≡ false
      → socket_recv_accumulate os client.h2t_data_fd w.conn.buff.h2t_header_buff header_bytes 0 w.os
        ≡ some ((ok, n, bytes), s)
      → update_curr_h2t_header os m client w
        ≡ some (
          ok,
          record w {
            conn = record (w.conn) { buff = record (w.conn.buff) { h2t_header_buff = bytes } };
            os = s;
          },
        )
  unfolding update_curr_h2t_header
  header_comes fresh comes =
      ap (λ b. if not b then recv_h2t_header os m client w else some (ok, w)) fresh
      ∙ rw (recv_h2t_header, on_os, comes, ◌>>=◌, ◌>>◌)

  header_stays : w.conn.h2t_waiting ≡ true → update_curr_h2t_header os m client w ≡ some (ok, w)
  unfolding update_curr_h2t_header
  header_stays waiting =
      ap (λ b. if not b then recv_h2t_header os m client w else some (ok, w)) waiting

  pub poll_asks :
      {get_buffer : ℕ → Run (Device X) ℕ} {n a : ℕ} {d : Device X}
      → w.conn.hw_callbacks.get_h2t_buffer ≡ some get_buffer
      → w.conn.loopback_mode ≡ false
      → get_buffer n w.dev ≡ some (a, d)
      → poll_h2t_buffer os m n w ≡ some (a, record w { dev = d })
  unfolding poll_h2t_buffer
  poll_asks {get_buffer = f} {n = n} here normal answer =
      let start : Option (ℕ × World N X) = some (w.conn.buff.h2t_rx_buff, w) in
      ap
        (λ o. elim o [
          | none ↦ start
          | some f ↦ if not w.conn.loopback_mode then on_dev (f n) w else start
        ])
        here
      ∙ ap (λ b. if not b then on_dev (f n) w else start) normal
      ∙ rw (on_dev, answer)

  -- The two ways on from a header that is there.
  no_buffer :
      {w1 w2 : World N X}
      → update_curr_h2t_header os m client w ≡ some (ok, w1)
      → poll_h2t_buffer os m (data_len w1.conn.buff.h2t_header_buff) w1 ≡ some (0, w2)
      → process_h2t_data os m client w
        ≡ some (ok, record w2 { conn = record (w2.conn) { h2t_waiting = true } })
  unfolding process_h2t_data
  no_buffer update poll = rw (update, ◌>>=◌, poll)

  pub a_buffer :
      {a : ℕ} {w1 w2 : World N X}
      → update_curr_h2t_header os m client w ≡ some (ok, w1)
      → poll_h2t_buffer os m (data_len w1.conn.buff.h2t_header_buff) w1 ≡ some (a, w2)
      → 0 < a
      → process_h2t_data os m client w
        ≡ accept_h2t os m client
            (h2t_header_at w1.conn.buff.h2t_header_buff sizeof_packet_guardband)
            a
            w2
  unfolding process_h2t_data
  a_buffer {a = a} update poll some_buffer = rw (update, ◌>>=◌, poll, nonzero a some_buffer)

module _ {N X : Type 0} (os : Os N) (m : Mmio X) (client : ClientConn) where
  -- Outside loopback mode, let a fresh header come and its packet find no buffer, so that the
  -- callback answers 0. Then `process_h2t_data` answers OK and keeps the header. When it is called
  -- again, and the callback then answers an address `a` other than 0 for the same length, it reads
  -- no further header from the socket: it goes on with the packet of the header that it kept, at
  -- `a`.
  pub process_h2t_data-takes_up :
      (w : World N X) (f : ℕ → Run (Device X) ℕ) (bytes : List ℕ) (n : ℤ) (s : N) (d d' : Device X)
      (a : ℕ)
      → w.conn.h2t_waiting ≡ false
      → w.conn.loopback_mode ≡ false
      → w.conn.hw_callbacks.get_h2t_buffer ≡ some f
      → socket_recv_accumulate os client.h2t_data_fd w.conn.buff.h2t_header_buff header_bytes 0 w.os
        ≡ some ((ok, n, bytes), s)
      → f (data_len bytes) w.dev ≡ some (0, d)
      → f (data_len bytes) d ≡ some (a, d')
      → 0 < a
      → (process_h2t_data os m client w ≡ some (ok, put_off w bytes s d))
        × (process_h2t_data os m client (put_off w bytes s d)
            ≡ accept_h2t os m client
                (h2t_header_at bytes sizeof_packet_guardband)
                a
                (put_off w bytes s d'))
  process_h2t_data-takes_up w f bytes n s d d' a fresh normal here comes refused granted
        some_buffer =
      let read : World N X = record w {
        conn = record (w.conn) { buff = record (w.conn.buff) { h2t_header_buff = bytes } };
        os = s;
      } in
      let later : World N X = put_off w bytes s d in
      (
        no_buffer os m client w (header_comes os m client w fresh comes)
            (poll_asks os m client read here normal refused),
        a_buffer os m client later (header_stays os m client later refl)
            (poll_asks os m client later here normal granted) some_buffer,
      )
