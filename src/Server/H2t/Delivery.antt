-- ===== src/Server/H2t/Delivery.antt =====
-- process_h2t_data of streaming/src/intel_st_debug_if_server.c from the socket of the client to the call of
-- the driver.
use remote_debug_for_intel_f.Prelude.{
  u64, ℕ, nil_of, append-nil, length-drop, drop-drop, ◌+◌, ◌%◌, ◌≤◌, ◌<◌, ◌≡◌, sym, ap, ◌∙◌, Bool,
  false, not, List, ◌++◌, Option, some, arith, Run, ◌>>=◌, take, drop, length, if◌then◌else◌,
}
use remote_debug_for_intel_f.Prelude.Int.{ℤ}
use remote_debug_for_intel_f.Packet.{H2tPacketHeader, h2t_header_at, sizeof_packet_guardband}
use remote_debug_for_intel_f.Mmio.{Mmio}
use remote_debug_for_intel_f.Os.{Os, IsStream}
use remote_debug_for_intel_f.Driver.{Device}
use remote_debug_for_intel_f.Sockets.{ok}
use remote_debug_for_intel_f.Sockets.Recv.Open.{StaysOpen, socket_recv_accumulate-GotAll}
use remote_debug_for_intel_f.Server.{World, ClientConn}
use remote_debug_for_intel_f.Server.Wrap.Around.{around}
use remote_debug_for_intel_f.Server.H2t.{
  header_bytes, recv_h2t_payload, accept_h2t, push_h2t, loop_h2t_back, process_h2t_data,
}
use remote_debug_for_intel_f.Server.H2t.Ring.{lay_around, around-lay_around}
use remote_debug_for_intel_f.Server.H2t.Waiting.{header_comes, poll_asks, a_buffer}
use remote_debug_for_intel_f.Server.H2t.Landing.{HasRing}
use remote_debug_for_intel_f.Server.H2t.Payload.{recv_h2t_payload-Lands}
use remote_debug_for_intel_f.Interfaces.{InterfaceVec}
use remote_debug_for_intel_f.Uio.Access.{ram, uio_mmio}
use remote_debug_for_intel_f.Uio.Access.Pieces.{moved, moved_most}
use remote_debug_for_intel_f.Uio.Access.Bytes.{drop-IsBytes}
use remote_debug_for_intel_f.Uio.Access.Words.{subst-IsBytes}

module _ {N X : Type 0} (os : Os N) (m : Mmio X) (client : ClientConn) (header : H2tPacketHeader)
    (a : ℕ) (w : World N X) where
  -- The packet is counted and no longer waits.
  abbrev pub taken_up : World N X
  taken_up = record w {
    conn = record (w.conn) {
      pkt_stats = record (w.conn.pkt_stats) { h2t_cnt = u64 (w.conn.pkt_stats.h2t_cnt + 1) };
      h2t_waiting = false;
    };
  }

  pub accept_h2t-push :
      (w' : World N X)
      → recv_h2t_payload os m client a header.data_len_bytes taken_up ≡ some (ok, w')
      → w'.conn.loopback_mode ≡ false
      → accept_h2t os m client header a w ≡ push_h2t os m header a w'
  unfolding accept_h2t
  accept_h2t-push w' e normal =
      rw (e, ◌>>=◌)
        (ap
          (λ c.
            (if not c
                then push_h2t os m header a
                else loop_h2t_back os m client a header.data_len_bytes)
              w')
          normal)

module _ {N : Type 0} {os : Os N} (st : IsStream os) (start delta : ℕ) (v : InterfaceVec)
    (handle : ℤ) (emulate : Bool) (client : ClientConn) (up : StaysOpen st client.h2t_data_fd)
    (before after : List ℕ) where
  -- The world behind a packet: its header, its payload laid over the ring, one packet more.
  abbrev pub landed :
      (w : World N (Option (List ℕ))) (header host ring : List ℕ) (s : N)
      (d : Device (Option (List ℕ)))
      → World N (Option (List ℕ))
  landed w header host ring s d = record w {
    conn = record (w.conn) {
      buff = record (w.conn.buff) { h2t_header_buff = header };
      pkt_stats = record (w.conn.pkt_stats) { h2t_cnt = u64 (w.conn.pkt_stats.h2t_cnt + 1) };
      h2t_waiting = false;
    };
    recv_buff = some host;
    os = s;
    dev = record d { hw = some (before ++ (ring ++ after)) };
  }

  abbrev m : Mmio (Option (List ℕ))
  m = uio_mmio (ram start) v emulate

  -- What `process_h2t_data` does with a header that is there and a buffer in the ring.
  accept_h2t-lands :
      (w : World N (Option (List ℕ))) (header : H2tPacketHeader) (o : ℕ) (ring host : List ℕ)
      → HasRing st start delta v handle emulate client up before after w ring host
      → w.conn.loopback_mode ≡ false
      → o % 8 ≡ 0
      → o < w.conn.buff.h2t_rx_buff_sz
      → header.data_len_bytes ≤ w.conn.buff.h2t_rx_buff_sz
      → header.data_len_bytes ≤ length (st.pending client.h2t_data_fd w.os)
      → (bs : List ℕ) × (host' : List ℕ) × (s' : N) × (accept_h2t os m client header
            (w.conn.buff.h2t_rx_buff + o)
            w
          ≡ push_h2t os m header
              (w.conn.buff.h2t_rx_buff + o)
              (landed w w.conn.buff.h2t_header_buff host' (lay_around o bs ring) s' w.dev))
        × (length bs ≡ moved header.data_len_bytes)
        × (around o header.data_len_bytes (lay_around o bs ring)
            ≡ take header.data_len_bytes (st.pending client.h2t_data_fd w.os))
        × (st.pending client.h2t_data_fd s'
            ≡ drop header.data_len_bytes (st.pending client.h2t_data_fd w.os))
  accept_h2t-lands w header o ring host r normal aligned inside fits enough =
      let n = header.data_len_bytes in
      let a = w.conn.buff.h2t_rx_buff + o in
      let most = moved_most n (omega (arith, fits, r.low)) in
      let lands =
        recv_h2t_payload-Lands st start delta v handle emulate client up before after
          (taken_up os m client header a w) ring host
          (record {
            placed = r.placed;
            front = r.front;
            span = r.span;
            low = r.low;
            whole_words = r.whole_words;
            wraps = r.wraps;
            buffer = r.buffer;
            room = r.room;
            host_bytes = r.host_bytes;
            stream_bytes = r.stream_bytes;
          })
          o n aligned fits enough inside in
      let whole : length lands.bs ≤ length ring =
        omega (arith, lands.size_bs, fits, r.whole_words, r.span, r.low) in
      (
        lands.bs,
        lands.host,
        lands.s',
        accept_h2t-push os m client header a w _ lands.returns normal,
        lands.size_bs,
        around-lay_around o n lands.bs ring (omega (arith, inside, r.span)) whole
              (omega (arith, lands.size_bs, most))
            ∙ lands.payload,
        lands.rest,
      )

  -- From the client's socket to the driver. Let the connection stay up, `recv` handing over bytes
  -- as long as some are to come, and let a whole packet be there. Let no packet wait, outside
  -- loopback mode; let the get_h2t_buffer callback answer an address other than 0 whose offset `o`
  -- in the H2T ring is a multiple of 8; let the ring be of whole words, lie in plain memory of
  -- bytes below the address 2^31, and be no shorter than the payload; and let the receive buffer be
  -- no shorter than the ring. Then `process_h2t_data` goes on to call the h2t_data_received
  -- callback with the header that came and that address, on a device whose ring holds the payload
  -- from `o` on, round the end of the ring. The payload is filled up to whole words, and nothing
  -- else of the memory is changed; the packet is counted, none waits, and the socket has the bytes
  -- behind the packet still to come.
  pub process_h2t_data-lands :
      (w : World N (Option (List ℕ))) (poll : ℕ → Run (Device (Option (List ℕ))) ℕ) (o : ℕ)
      (d : Device (Option (List ℕ))) (ring host : List ℕ)
      → let q = st.pending client.h2t_data_fd w.os in
        let header = h2t_header_at (take header_bytes q) sizeof_packet_guardband in
        let n = header.data_len_bytes in
        let a = w.conn.buff.h2t_rx_buff + o in
        w.conn.h2t_waiting ≡ false
        → w.conn.loopback_mode ≡ false
        → w.conn.hw_callbacks.get_h2t_buffer ≡ some poll
        → length w.conn.buff.h2t_header_buff ≡ header_bytes
        → header_bytes + n ≤ length q
        → poll n w.dev ≡ some (a, d)
        → 0 < a
        → HasRing st start delta v handle emulate client up before after
            (record w { dev = d })
            ring
            host
        → o % 8 ≡ 0
        → o < w.conn.buff.h2t_rx_buff_sz
        → n ≤ w.conn.buff.h2t_rx_buff_sz
        → (bs : List ℕ) × (host' : List ℕ) × (s' : N) × (process_h2t_data os m client w
            ≡ push_h2t os m header a
                (landed w (take header_bytes q) host' (lay_around o bs ring) s' d))
          × (length bs ≡ moved n)
          × (around o n (lay_around o bs ring) ≡ take n (drop header_bytes q))
          × (st.pending client.h2t_data_fd s' ≡ drop (header_bytes + n) q)
  process_h2t_data-lands w poll o d ring host fresh normal here size enough answer some_buffer r
        aligned inside fits =
      let q = st.pending client.h2t_data_fd w.os in
      let bytes = take header_bytes q in
      let header = h2t_header_at bytes sizeof_packet_guardband in
      let n = header.data_len_bytes in
      let got =
        socket_recv_accumulate-GotAll st client.h2t_data_fd 0 up header_bytes
          w.conn.buff.h2t_header_buff w.os (omega (arith, size)) (omega arith)
          (omega (arith, enough)) in
      let all : bytes ++ drop header_bytes w.conn.buff.h2t_header_buff ≡ bytes =
        ap (λ t. bytes ++ t)
          (nil_of (drop header_bytes w.conn.buff.h2t_header_buff)
            (omega (arith, size, length-drop header_bytes w.conn.buff.h2t_header_buff)))
        ∙ append-nil bytes in
      let read : World N (Option (List ℕ)) = record w {
        conn = record (w.conn) { buff = record (w.conn.buff) { h2t_header_buff = bytes } };
        os = got.s';
      } in
      let polled : World N (Option (List ℕ)) = record read { dev = d } in
      let (bs, host', s', accepts, l, payload, rest) =
        accept_h2t-lands polled header o ring host
          (record {
            placed = r.placed;
            front = r.front;
            span = r.span;
            low = r.low;
            whole_words = r.whole_words;
            wraps = r.wraps;
            buffer = r.buffer;
            room = r.room;
            host_bytes = r.host_bytes;
            stream_bytes =
                subst-IsBytes (sym got.rest) (drop-IsBytes header_bytes q r.stream_bytes);
          })
          normal aligned inside fits
          (omega (arith, ap length got.rest, length-drop header_bytes q, enough)) in
      (
        bs,
        host',
        s',
        a_buffer os m client w
              (header_comes os m client w fresh
                (got.returns ∙ (λ i. some ((ok, got.count, all i), got.s'))))
              (poll_asks os m client read here normal answer) some_buffer
            ∙ accepts,
        l,
        payload ∙ ap (take n) got.rest,
        rest ∙ ap (drop n) got.rest ∙ drop-drop n header_bytes q,
      )
