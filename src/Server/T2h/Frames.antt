-- ===== src/Server/T2h/Frames.antt =====
-- process_t2h_data of streaming/src/intel_st_debug_if_server.c from the memory of the hardware to the
-- socket of the client.
use remote_debug_for_intel_f.Prelude.{
  ℕ, subst, ◌+◌, ◌-◌, ◌^◌, ◌≤◌, ◌<◌, ◌≡◌, refl, sym, ap, inl, inr, Bool, true, false, List, ◌++◌,
  Option, some, arith, ◌>>=◌, take, drop, length, sub64, not, ◌&&◌, ◌==◌, if◌then◌else◌, pure,
  length-append,
}
use remote_debug_for_intel_f.Prelude.Int.{ℤ}
use remote_debug_for_intel_f.Mmio.{Mmio}
use remote_debug_for_intel_f.Os.{Os, IsStream}
use remote_debug_for_intel_f.Sockets.{ReturnCode}
use remote_debug_for_intel_f.Server.{World, ClientConn}
use remote_debug_for_intel_f.Server.Wrap.{buff_len_to_wrap_boundary}
use remote_debug_for_intel_f.Server.Wrap.Split.{buff_len_to_wrap_boundary_lem}
use remote_debug_for_intel_f.Server.Wrap.Around.{around, around_inside, around_wraps}
use remote_debug_for_intel_f.Server.H2t.{is_ok, socket_send_all_t2h_data}
use remote_debug_for_intel_f.Server.T2h.{send_t2h_payload}
use remote_debug_for_intel_f.Server.T2h.Pieces.{Sending, Sending-both, socket_send_all_t2h_data_lem}
use remote_debug_for_intel_f.Interfaces.{InterfaceVec}
use remote_debug_for_intel_f.Uio.Access.{ram, uio_mmio}
use remote_debug_for_intel_f.Uio.Access.Pieces.{Holds, Reaches, moved_most}

-- The payload in one piece, or in two.
module _ {N X : Type 0} (os : Os N) (m : Mmio X) (client : ClientConn) (w : World N X)
    (a n : ℕ) where
  abbrev first_len : ℕ
  first_len = buff_len_to_wrap_boundary w.conn.buff.t2h_tx_buff w.conn.buff.t2h_tx_buff_sz a n

  abbrev one_piece : Option (ReturnCode × World N X)
  one_piece = socket_send_all_t2h_data os m client.t2h_data_fd a n 0 w

  abbrev two_pieces : Option (ReturnCode × World N X)
  two_pieces =
      (do
        rc ← socket_send_all_t2h_data os m client.t2h_data_fd a first_len 0
        if is_ok rc
            then socket_send_all_t2h_data os m client.t2h_data_fd w.conn.buff.t2h_tx_buff
                (sub64 n first_len) 0
            else pure rc)
        w

  send_t2h_payload-one : first_len ≡ 0 → send_t2h_payload os m client a n w ≡ one_piece
  unfolding send_t2h_payload
  send_t2h_payload-one e =
      let b = w.conn.buff.use_wrapping_data_buffers in
      let no_wrap : (b && not (first_len == 0)) ≡ false = ground (arith, e) in
      ap (λ c. if c then two_pieces else one_piece) no_wrap

  send_t2h_payload-two :
      w.conn.buff.use_wrapping_data_buffers ≡ true
      → 0 < first_len
      → send_t2h_payload os m client a n w ≡ two_pieces
  unfolding send_t2h_payload
  send_t2h_payload-two wraps h =
      let b = w.conn.buff.use_wrapping_data_buffers in
      let wrap : (b && not (first_len == 0)) ≡ true = ground (arith, wraps, h) in
      ap (λ c. if c then two_pieces else one_piece) wrap

module _ {N : Type 0} {os : Os N} (st : IsStream os) (start delta : ℕ) (v : InterfaceVec)
    (handle : ℤ) (emulate : Bool) (client : ClientConn) where
  abbrev m : Mmio (Option (List ℕ))
  m = uio_mmio (ram start) v emulate

  -- The memory of the T2H ring of a world, in the memory of its device.
  pub record HasRing (w : World N (Option (List ℕ))) (before ring after : List ℕ) (host : List ℕ)
      : Type 0 where
    pub placed : Holds start delta v handle emulate w.dev (before ++ (ring ++ after))
    pub front : length before ≡ delta + w.conn.buff.t2h_tx_buff
    pub span : length ring ≡ w.conn.buff.t2h_tx_buff_sz
    pub spare : 7 ≤ length after
    pub low : w.conn.buff.t2h_tx_buff + w.conn.buff.t2h_tx_buff_sz + 7 < 2 ^ 31
    pub wraps : w.conn.buff.use_wrapping_data_buffers ≡ true
    pub buffer : w.send_buff ≡ some host
    pub room : w.conn.buff.t2h_tx_buff_sz + 7 ≤ length host

  module _ (w : World N (Option (List ℕ))) (before ring after host : List ℕ)
      (r : HasRing w before ring after host) where
    abbrev sa : ℕ
    sa = w.conn.buff.t2h_tx_buff

    abbrev sz : ℕ
    sz = w.conn.buff.t2h_tx_buff_sz

    abbrev memory : List ℕ
    memory = before ++ (ring ++ after)

    size : length memory ≡ length before + length ring + length after
    size = omega (arith, length-append before (ring ++ after), length-append ring after)

    -- A piece that ends at the end of the ring at the latest can be fetched.
    reaches : (o n : ℕ) → o + n ≤ sz → Reaches start delta v handle emulate memory (sa + o) n
    reaches o n h =
        let most = moved_most n (omega (arith, r.low)) in
        (omega (arith, size, most, r.front, r.span, r.spare), omega (arith, most, r.low))

    at : (o : ℕ) → delta + (sa + o) ≡ length before + o
    at o = omega (arith, r.front)

    -- Sending such a piece, from this world or from one that only differs in the send buffer.
    piece :
        (w' : World N (Option (List ℕ))) (host' : List ℕ) (o n : ℕ)
        → w'.dev ≡ w.dev
        → w'.send_buff ≡ some host'
        → length host' ≡ length host
        → o + n ≤ sz
        → Sending st client.t2h_data_fd 0
            (length host)
            w'
            (take n (drop (length before + o) memory))
            (socket_send_all_t2h_data os m client.t2h_data_fd (sa + o) n 0 w')
    piece w' host' o n same buffer l h =
        let most = moved_most n (omega (arith, r.low)) in
        let one =
          socket_send_all_t2h_data_lem st start delta v handle emulate client.t2h_data_fd 0 w'
            memory host' (sa + o) n
            (subst (λ d. Holds start delta v handle emulate d memory) (sym same) r.placed)
            (reaches o n h) buffer (omega (arith, most, l, r.room)) (omega (arith, r.low)) in
        subst
          (λ k.
            Sending st client.t2h_data_fd 0 k w' (take n (drop (length before + o) memory))
              (socket_send_all_t2h_data os m client.t2h_data_fd (sa + o) n 0 w'))
          l
          (subst
            (λ k.
              Sending st client.t2h_data_fd 0 (length host') w' (take n (drop k memory))
                (socket_send_all_t2h_data os m client.t2h_data_fd (sa + o) n 0 w'))
            (at o) one)

    -- The second piece stands at the start of the ring.
    second :
        (w' : World N (Option (List ℕ))) (k k' : ℕ)
        → k' ≡ k
        → Sending st client.t2h_data_fd 0
            (length host)
            w'
            (take k' (drop (length before + 0) memory))
            (socket_send_all_t2h_data os m client.t2h_data_fd (sa + 0) k' 0 w')
        → Sending st client.t2h_data_fd 0
            (length host)
            w'
            (take k' (drop (length before + 0) memory))
            (socket_send_all_t2h_data os m client.t2h_data_fd sa k 0 w')
    second w' k k' e h =
        let start_of : sa + 0 ≡ sa = omega arith in
        let bs = take k' (drop (length before + 0) memory) in
        subst
          (λ j.
            Sending st client.t2h_data_fd 0 (length host) w' bs
              (socket_send_all_t2h_data os m client.t2h_data_fd j k 0 w'))
          start_of
          (subst
            (λ j.
              Sending st client.t2h_data_fd 0 (length host) w' bs
                (socket_send_all_t2h_data os m client.t2h_data_fd (sa + 0) j 0 w'))
            e h)

    -- The payload that starts at the offset `o` of the ring is sent round its end.
    pub send_t2h_payload_lem :
        (o n : ℕ)
        → o < sz
        → n ≤ sz
        → Sending st client.t2h_data_fd 0
            (length host)
            w
            (around o n ring)
            (send_t2h_payload os m client (sa + o) n w)
    send_t2h_payload_lem o n h fits =
        elim (buff_len_to_wrap_boundary_lem sa sz (sa + o) n (omega (arith, r.low)) (omega arith)
          (omega arith) fits) [
            | inl (e, inside) ↦
                subst (Sending st client.t2h_data_fd 0 (length host) w (around o n ring))
                  (sym (send_t2h_payload-one os m client w (sa + o) n e))
                  (subst
                    (λ t.
                      Sending st client.t2h_data_fd 0 (length host) w t
                        (one_piece os m client w (sa + o) n))
                    (around_inside before ring after o n (omega (arith, r.span)))
                    (piece w host o n refl r.buffer refl (omega arith)))
            | inr (some_first, ends, all, behind) ↦
                let f = first_len os m client w (sa + o) n in
                let f_fits : f ≤ n = omega arith in
                let rest : sub64 n f ≡ n - f = omega arith in
                let both =
                  Sending-both st client.t2h_data_fd 0
                    (socket_send_all_t2h_data os m client.t2h_data_fd (sa + o) f 0)
                    (socket_send_all_t2h_data os m client.t2h_data_fd sa (sub64 n f) 0)
                    (piece w host o f refl r.buffer refl (omega arith))
                    (λ w' host' d b l.
                      second w' (sub64 n f) (n - f) (sym rest)
                        (piece w' host' 0 (n - f) d b l (omega arith))) in
                subst (Sending st client.t2h_data_fd 0 (length host) w (around o n ring))
                  (sym (send_t2h_payload-two os m client w (sa + o) n r.wraps some_first))
                  (subst
                    (λ t.
                      Sending st client.t2h_data_fd 0 (length host) w t
                        (two_pieces os m client w (sa + o) n))
                    (around_wraps before ring after o n f (omega (arith, r.span)) f_fits
                      (omega (arith, r.span)))
                    both)
          ]
