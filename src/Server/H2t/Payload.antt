-- ===== src/Server/H2t/Payload.antt =====
-- recv_h2t_payload of process_h2t_data, streaming/src/intel_st_debug_if_server.c, with a payload that may
-- run round the end of the ring.
use remote_debug_for_intel_f.Prelude.{
  ℕ, ◌+◌, ◌-◌, ◌%◌, ◌≤◌, ◌<◌, ◌≡◌, refl, sym, ap, ◌∙◌, subst, inl, inr, Bool, true, false, not,
  ◌&&◌, List, ◌++◌, Option, some, arith, Run, ◌>>=◌, pure, take, drop, length, sub64, ◌==◌,
  if◌then◌else◌, length-append, length-drop, drop-drop, le→leb,
}
use remote_debug_for_intel_f.Prelude.Int.{ℤ}
use remote_debug_for_intel_f.Mmio.{Mmio}
use remote_debug_for_intel_f.Os.{Os, IsStream}
use remote_debug_for_intel_f.Sockets.{ReturnCode, ok}
use remote_debug_for_intel_f.Sockets.Recv.Open.{StaysOpen}
use remote_debug_for_intel_f.Server.{World, ClientConn}
use remote_debug_for_intel_f.Server.Wrap.{buff_len_to_wrap_boundary}
use remote_debug_for_intel_f.Server.Wrap.Split.{buff_len_to_wrap_boundary_lem}
use remote_debug_for_intel_f.Server.H2t.{is_ok, socket_recv_accumulate_h2t_data, recv_h2t_payload}
use remote_debug_for_intel_f.Server.H2t.Ring.{lay, lay_around, lay_around-append, take-both}
use remote_debug_for_intel_f.Server.H2t.Landing.{HasRing, Piece, piece, laid, laid-HasRing}
use remote_debug_for_intel_f.Interfaces.{InterfaceVec}
use remote_debug_for_intel_f.Uio.Access.{ram, uio_mmio}
use remote_debug_for_intel_f.Uio.Access.Bytes.{IsBytes}
use remote_debug_for_intel_f.Uio.Access.Pieces.{moved, moved_most}

-- What follows a run that answers OK.
then_ok :
    {S : Type 0} (g k : Run S ReturnCode) (s s' : S)
    → g s ≡ some (ok, s')
    → (do rc ← g; if is_ok rc then k else pure rc) s ≡ k s'
then_ok g k s s' e = rw (e, ◌>>=◌) refl

-- The payload in one piece, or in two.
module _ {N X : Type 0} (os : Os N) (m : Mmio X) (client : ClientConn) (w : World N X)
    (a n : ℕ) where
  abbrev first_len : ℕ
  first_len = buff_len_to_wrap_boundary w.conn.buff.h2t_rx_buff w.conn.buff.h2t_rx_buff_sz a n

  abbrev one_piece : Option (ReturnCode × World N X)
  one_piece = socket_recv_accumulate_h2t_data os m client.h2t_data_fd a n 0 w

  abbrev two_pieces : Option (ReturnCode × World N X)
  two_pieces =
      (do
        rc ← socket_recv_accumulate_h2t_data os m client.h2t_data_fd a first_len 0
        if is_ok rc
            then socket_recv_accumulate_h2t_data os m client.h2t_data_fd w.conn.buff.h2t_rx_buff
                (sub64 n first_len) 0
            else pure rc)
        w

  pub recv_h2t_payload-one : first_len ≡ 0 → recv_h2t_payload os m client a n w ≡ one_piece
  unfolding recv_h2t_payload
  recv_h2t_payload-one e =
      let b = w.conn.buff.use_wrapping_data_buffers in
      let no_wrap : (b && not (first_len == 0)) ≡ false = ground (arith, e) in
      ap (λ c. if c then two_pieces else one_piece) no_wrap

  recv_h2t_payload-two :
      w.conn.buff.use_wrapping_data_buffers ≡ true
      → 0 < first_len
      → recv_h2t_payload os m client a n w ≡ two_pieces
  unfolding recv_h2t_payload
  recv_h2t_payload-two wraps h =
      let b = w.conn.buff.use_wrapping_data_buffers in
      let wrap : (b && not (first_len == 0)) ≡ true = ground (arith, wraps, h) in
      ap (λ c. if c then two_pieces else one_piece) wrap

module _ {N : Type 0} {os : Os N} (st : IsStream os) (start delta : ℕ) (v : InterfaceVec)
    (handle : ℤ) (emulate : Bool) (client : ClientConn) (up : StaysOpen st client.h2t_data_fd)
    (before after : List ℕ) where
  -- The next `n` bytes of the stream, filled up to a whole word, are laid over the ring from the
  -- offset `o` on; nothing else of the memory changes.
  pub record Lands (w : World N (Option (List ℕ))) (ring : List ℕ) (size o n : ℕ)
      (out : Option (ReturnCode × World N (Option (List ℕ)))) : Type 0 where
    pub bs : List ℕ
    pub host : List ℕ
    pub s' : N
    pub size_kept : length host ≡ size
    pub bytes : IsBytes host
    pub size_bs : length bs ≡ moved n
    pub payload : take n bs ≡ take n (st.pending client.h2t_data_fd w.os)
    pub rest : st.pending client.h2t_data_fd s' ≡ drop n (st.pending client.h2t_data_fd w.os)
    pub returns :
        out
        ≡ some (
          ok,
          record w {
            recv_buff = some host;
            os = s';
            dev = record (w.dev) { hw = some (before ++ (lay_around o bs ring ++ after)) };
          },
        )

  module _ (w : World N (Option (List ℕ))) (ring host : List ℕ)
      (r : HasRing st start delta v handle emulate client up before after w ring host) (o n : ℕ)
      (aligned : o % 8 ≡ 0) (fits : n ≤ w.conn.buff.h2t_rx_buff_sz)
      (enough : n ≤ length (st.pending client.h2t_data_fd w.os)) where
    abbrev a : ℕ
    a = w.conn.buff.h2t_rx_buff + o

    abbrev m : Mmio (Option (List ℕ))
    m = uio_mmio (ram start) v emulate

    Lands-once :
        o + n ≤ w.conn.buff.h2t_rx_buff_sz
        → Lands w ring (length host) o n (one_piece os m client w a n)
    Lands-once inside =
        let p =
          piece st start delta v handle emulate client up before after w ring host o n r aligned
            inside enough in
        let within : o + length p.bs ≤ length ring =
          omega (arith, p.size_bs, aligned, inside, r.span, r.whole_words, r.low) in
        let f = length ring - o in
        record {
          bs = p.bs;
          host = p.host;
          s' = p.s';
          size_kept = p.size_kept;
          bytes = p.bytes;
          size_bs = p.size_bs;
          payload = p.payload;
          rest = p.rest;
          returns =
              p.returns
              ∙ ap
                  (λ c. some (
                    ok,
                    laid st start delta v handle emulate client up before after w
                        (if c
                          then lay o p.bs ring
                          else lay 0 (drop f p.bs) (lay o (take f p.bs) ring))
                        p.host p.s',
                  ))
                  (sym (le→leb (o + length p.bs) (length ring) within));
        }

    abbrev f : ℕ
    f = first_len os m client w a n

    abbrev q : List ℕ
    q = st.pending client.h2t_data_fd w.os

    abbrev part : (ring host : List ℕ) (s : N) → World N (Option (List ℕ))
    part = laid st start delta v handle emulate client up before after w

    -- Two pieces that have landed, one at the end of the ring and one at its start.
    module _ (ends : o + f ≡ w.conn.buff.h2t_rx_buff_sz) (over : f < n)
        (p : Piece st start delta v handle emulate client up before after w ring
          (length host)
          o
          f
          (socket_recv_accumulate_h2t_data os m client.h2t_data_fd a f 0 w))
        (p2 : Piece st start delta v handle emulate client up before after
          (part (lay o p.bs ring) p.host p.s')
          (lay o p.bs ring)
          (length p.host)
          0
          (n - f)
          (socket_recv_accumulate_h2t_data os m client.h2t_data_fd
            (w.conn.buff.h2t_rx_buff + 0)
            (n - f)
            0
            (part (lay o p.bs ring) p.host p.s'))) where
      first_whole : length p.bs ≡ f
      first_whole = omega (arith, p.size_bs, aligned, ends, r.whole_words, r.low)

      both_return :
          two_pieces os m client w a n
          ≡ some (ok, part (lay_around o (p.bs ++ p2.bs) ring) p2.host p2.s')
      both_return =
          let w1 = part (lay o p.bs ring) p.host p.s' in
          let base : w.conn.buff.h2t_rx_buff ≡ w.conn.buff.h2t_rx_buff + 0 = omega arith in
          let rest : sub64 n f ≡ n - f = omega (arith, r.low) in
          let most = moved_most (n - f) (omega (arith, fits, r.low)) in
          then_ok (socket_recv_accumulate_h2t_data os m client.h2t_data_fd a f 0)
            (socket_recv_accumulate_h2t_data os m client.h2t_data_fd w.conn.buff.h2t_rx_buff
              (sub64 n f) 0)
            w w1 p.returns
          ∙ (λ i. socket_recv_accumulate_h2t_data os m client.h2t_data_fd (base i) (rest i) 0 w1)
          ∙ p2.returns
          ∙ ap (λ ring'. some (ok, part ring' p2.host p2.s'))
              (sym (
                lay_around-append o p.bs p2.bs ring (omega (arith, first_whole, ends, r.span))
                  (omega (arith, p2.size_bs, most, over))))

      joined : Lands w ring (length host) o n (two_pieces os m client w a n)
      joined = record {
        bs = p.bs ++ p2.bs;
        host = p2.host;
        s' = p2.s';
        size_kept = p2.size_kept ∙ p.size_kept;
        bytes = p2.bytes;
        size_bs = omega (
          arith,
          first_whole,
          p2.size_bs,
          length-append p.bs p2.bs,
          aligned,
          ends,
          r.whole_words,
          r.low,
        );
        payload =
            take-both f n p.bs p2.bs q (omega arith) first_whole p.payload
              (p2.payload ∙ ap (take (n - f)) p.rest);
        rest =
            p2.rest
            ∙ ap (drop (n - f)) p.rest
            ∙ drop-drop (n - f) f q
            ∙ ap (λ k. drop k q) {x = f + (n - f)} {y = n} (omega arith);
        returns = both_return;
      }

    -- The two pieces of a payload that does not end inside the ring.
    Lands-twice :
        o + f ≡ w.conn.buff.h2t_rx_buff_sz
        → f < n
        → Lands w ring (length host) o n (two_pieces os m client w a n)
    Lands-twice ends over =
        let p =
          piece st start delta v handle emulate client up before after w ring host o f r aligned
            (omega arith) (omega arith) in
        let words : moved f ≡ f = omega (arith, aligned, ends, r.whole_words, r.low) in
        let r1 =
          laid-HasRing st start delta v handle emulate client up before after w ring host o f _ r p
            (omega (arith, ends, words, r.span)) in
        joined ends over p (
          piece st start delta v handle emulate client up before after
            (part (lay o p.bs ring) p.host p.s') (lay o p.bs ring) p.host 0 (n - f) r1 refl
            (omega (arith, fits)) (omega (arith, length-drop f q, ap length p.rest)))

    wraps_over :
        0 < buff_len_to_wrap_boundary w.conn.buff.h2t_rx_buff w.conn.buff.h2t_rx_buff_sz a n
        → w.conn.buff.h2t_rx_buff_sz < o + n
    unfolding buff_len_to_wrap_boundary
    wraps_over h = ground (arith, r.low, fits)

    -- A payload that is no longer than the ring lands in it, round its end.
    pub recv_h2t_payload-Lands :
        o < w.conn.buff.h2t_rx_buff_sz
        → Lands w ring (length host) o n (recv_h2t_payload os m client a n w)
    recv_h2t_payload-Lands h =
        elim (buff_len_to_wrap_boundary_lem w.conn.buff.h2t_rx_buff w.conn.buff.h2t_rx_buff_sz a n
          (omega (arith, r.low)) (omega arith) (omega arith) fits) [
            | inl (e, inside) ↦
                subst (Lands w ring (length host) o n)
                  (sym (recv_h2t_payload-one os m client w a n e)) (Lands-once (omega arith))
            | inr (some_first, ends, all, behind) ↦
                subst (Lands w ring (length host) o n)
                  (sym (recv_h2t_payload-two os m client w a n r.wraps some_first))
                  (Lands-twice (omega arith) (omega (arith, wraps_over some_first, ends)))
          ]
