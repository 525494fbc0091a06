-- ===== src/Server/H2t/Landing.antt =====
-- recv_h2t_payload, the two pieces of process_h2t_data of streaming/src/intel_st_debug_if_server.c, from
-- the socket to the ring of the hardware.
use remote_debug_for_intel_f.Prelude.{
  ℕ, ◌+◌, ◌%◌, ◌^◌, ◌≤◌, ◌<◌, ◌≡◌, refl, sym, ap, ◌∙◌, Bool, true, List, ◌++◌, Option, some, arith,
  take, drop, length, length-append, length-take, take-append-drop,
}
use remote_debug_for_intel_f.Prelude.Int.{ℤ}
use remote_debug_for_intel_f.Os.{Os, IsStream}
use remote_debug_for_intel_f.Sockets.{ReturnCode, ok}
use remote_debug_for_intel_f.Sockets.Recv.Open.{StaysOpen}
use remote_debug_for_intel_f.Server.{World, ClientConn}
use remote_debug_for_intel_f.Server.Wrap.Around.{take_front}
use remote_debug_for_intel_f.Server.H2t.{socket_recv_accumulate_h2t_data}
use remote_debug_for_intel_f.Server.H2t.Ring.{lay, lay_within, length-lay}
use remote_debug_for_intel_f.Server.H2t.Pieces.{Received, socket_recv_accumulate_h2t_data-Received}
use remote_debug_for_intel_f.Interfaces.{InterfaceVec}
use remote_debug_for_intel_f.Uio.Access.{ram, uio_mmio}
use remote_debug_for_intel_f.Uio.Access.Bytes.{IsBytes, append-IsBytes, take-IsBytes, drop-IsBytes}
use remote_debug_for_intel_f.Uio.Access.Words.{subst-IsBytes, left-IsBytes, right-IsBytes}
use remote_debug_for_intel_f.Uio.Access.Pieces.{Holds, moved, moved_most}

module _ {N : Type 0} {os : Os N} (st : IsStream os) (start delta : ℕ) (v : InterfaceVec)
    (handle : ℤ) (emulate : Bool) (client : ClientConn) (up : StaysOpen st client.h2t_data_fd)
    (before after : List ℕ) where
  -- The H2T ring of a world, in whole words, with what the socket and the receive buffer hold.
  pub record HasRing (w : World N (Option (List ℕ))) (ring host : List ℕ) : Type 0 where
    pub placed : Holds start delta v handle emulate w.dev (before ++ (ring ++ after))
    pub front : length before ≡ delta + w.conn.buff.h2t_rx_buff
    pub span : length ring ≡ w.conn.buff.h2t_rx_buff_sz
    pub low : w.conn.buff.h2t_rx_buff + w.conn.buff.h2t_rx_buff_sz < 2 ^ 31
    pub whole_words : w.conn.buff.h2t_rx_buff_sz % 8 ≡ 0
    pub wraps : w.conn.buff.use_wrapping_data_buffers ≡ true
    pub buffer : w.recv_buff ≡ some host
    pub room : w.conn.buff.h2t_rx_buff_sz ≤ length host
    pub host_bytes : IsBytes host
    pub stream_bytes : IsBytes (st.pending client.h2t_data_fd w.os)

  -- A piece that ends with the ring at the latest.
  module _ (w : World N (Option (List ℕ))) (ring host : List ℕ) (r : HasRing w ring host) (o n : ℕ)
      (aligned : o % 8 ≡ 0) (inside : o + n ≤ w.conn.buff.h2t_rx_buff_sz)
      (enough : n ≤ length (st.pending client.h2t_data_fd w.os)) where
    fits : o + moved n ≤ length ring
    fits = omega (arith, r.span, r.whole_words, r.low)

    one :
        Received st start delta v handle emulate client.h2t_data_fd 0 up w
          (before ++ (ring ++ after))
          (length host)
          (w.conn.buff.h2t_rx_buff + o)
          n
          (socket_recv_accumulate_h2t_data os
            (uio_mmio (ram start) v emulate)
            client.h2t_data_fd
            (w.conn.buff.h2t_rx_buff + o)
            n
            0
            w)
    one =
        let size : length (before ++ (ring ++ after)) ≡ length before + length ring + length after =
          omega (arith, length-append before (ring ++ after), length-append ring after) in
        socket_recv_accumulate_h2t_data-Received st start delta v handle emulate client.h2t_data_fd
          0 up w (before ++ (ring ++ after)) host (w.conn.buff.h2t_rx_buff + o) n r.placed
          (omega (arith, size, r.front, fits), omega (arith, fits, r.span, r.low)) r.buffer
          (omega (arith, fits, r.span, r.room)) (omega (arith, r.low)) r.host_bytes r.stream_bytes
          enough

    in_place :
        (take (delta + (w.conn.buff.h2t_rx_buff + o)) (before ++ (ring ++ after))
            ++ take (moved n) one.host)
          ++ drop (delta + (w.conn.buff.h2t_rx_buff + o) + moved n) (before ++ (ring ++ after))
        ≡ before ++ (lay o (take (moved n) one.host) ring ++ after)
    in_place =
        let k : delta + (w.conn.buff.h2t_rx_buff + o) ≡ length before + o =
          omega (arith, r.front) in
        let l : length (take (moved n) one.host) ≡ moved n =
          omega (arith, length-take (moved n) one.host, one.size_kept, fits, r.span, r.room) in
        (λ i.
          (take (k i) (before ++ (ring ++ after)) ++ take (moved n) one.host)
          ++ drop (k i + sym l i) (before ++ (ring ++ after)))
        ∙ lay_within o (take (moved n) one.host) ring (omega (arith, l, fits)) before after

  -- The world behind a piece, in which `bs` has been laid over the ring.
  abbrev pub laid :
      (w : World N (Option (List ℕ))) (ring host : List ℕ) (s : N) → World N (Option (List ℕ))
  laid w ring host s = record w {
    recv_buff = some host;
    os = s;
    dev = record (w.dev) { hw = some (before ++ (ring ++ after)) };
  }

  pub record Piece (w : World N (Option (List ℕ))) (ring : List ℕ) (size o n : ℕ)
      (out : Option (ReturnCode × World N (Option (List ℕ)))) : Type 0 where
    pub bs : List ℕ
    pub host : List ℕ
    pub s' : N
    pub size_kept : length host ≡ size
    pub bytes : IsBytes host
    pub bs_bytes : IsBytes bs
    pub size_bs : length bs ≡ moved n
    pub payload : take n bs ≡ take n (st.pending client.h2t_data_fd w.os)
    pub rest : st.pending client.h2t_data_fd s' ≡ drop n (st.pending client.h2t_data_fd w.os)
    pub returns : out ≡ some (ok, laid w (lay o bs ring) host s')

  pub piece :
      (w : World N (Option (List ℕ))) (ring host : List ℕ) (o n : ℕ)
      → HasRing w ring host
      → o % 8 ≡ 0
      → o + n ≤ w.conn.buff.h2t_rx_buff_sz
      → n ≤ length (st.pending client.h2t_data_fd w.os)
      → Piece w ring (length host) o n (
          socket_recv_accumulate_h2t_data os
            (uio_mmio (ram start) v emulate)
            client.h2t_data_fd
            (w.conn.buff.h2t_rx_buff + o)
            n
            0
            w)
  piece w ring host o n r aligned inside enough =
      let p = one w ring host r o n aligned inside enough in
      let within = fits w ring host r o n aligned inside enough in
      let most = moved_most n (omega (arith, inside, r.low)) in
      record {
        bs = take (moved n) p.host;
        host = p.host;
        s' = p.s';
        size_kept = p.size_kept;
        bytes = p.bytes;
        bs_bytes = take-IsBytes (moved n) p.host p.bytes;
        size_bs = omega (arith, length-take (moved n) p.host, p.size_kept, within, r.span, r.room);
        payload =
            sym (
              take_front n (take (moved n) p.host) (drop (moved n) p.host) (
                omega
                  (arith, most, length-take (moved n) p.host, p.size_kept, within, r.span, r.room)))
            ∙ ap (take n) (take-append-drop (moved n) p.host)
            ∙ p.next;
        rest = p.rest;
        returns =
            p.returns
            ∙ ap
                (λ mem. some (
                  ok,
                  record w {
                    recv_buff = some (p.host);
                    os = p.s';
                    dev = record (w.dev) { hw = some mem };
                  },
                ))
                (in_place w ring host r o n aligned inside enough);
      }

  -- The ring after a piece.
  pub laid-HasRing :
      (w : World N (Option (List ℕ))) (ring host : List ℕ) (o n : ℕ)
      (out : Option (ReturnCode × World N (Option (List ℕ))))
      → HasRing w ring host
      → (p : Piece w ring (length host) o n out) → o + moved n ≤ length ring
      → HasRing (laid w (lay o p.bs ring) p.host p.s') (lay o p.bs ring) p.host
  laid-HasRing w ring host o n out r p within =
      let ring' = lay o p.bs ring in
      let l : length ring' ≡ length ring = length-lay o p.bs ring (omega (arith, p.size_bs)) in
      let inner = right-IsBytes before (ring ++ after) r.placed.bytes in
      let ring_bytes = left-IsBytes ring after inner in
      record {
        placed = record {
          mapped = r.placed.mapped;
          here = r.placed.here;
          holds = refl;
          bytes =
              append-IsBytes before (ring' ++ after)
                (left-IsBytes before (ring ++ after) r.placed.bytes)
                (append-IsBytes ring' after
                  (append-IsBytes (take o ring) (p.bs ++ drop (o + length p.bs) ring)
                    (take-IsBytes o ring ring_bytes)
                    (append-IsBytes p.bs (drop (o + length p.bs) ring) p.bs_bytes
                      (drop-IsBytes (o + length p.bs) ring ring_bytes)))
                  (right-IsBytes ring after inner));
          top = omega (
            arith,
            l,
            r.placed.top,
            length-append before (ring ++ after),
            length-append ring after,
            length-append before (ring' ++ after),
            length-append ring' after,
          );
        };
        front = r.front;
        span = l ∙ r.span;
        low = r.low;
        whole_words = r.whole_words;
        wraps = r.wraps;
        buffer = refl;
        room = omega (arith, p.size_kept, r.room);
        host_bytes = p.bytes;
        stream_bytes =
            subst-IsBytes (sym p.rest)
              (drop-IsBytes n (st.pending client.h2t_data_fd w.os) r.stream_bytes);
      }
