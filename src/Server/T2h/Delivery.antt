-- ===== src/Server/T2h/Delivery.antt =====
-- process_t2h_data of streaming/src/intel_st_debug_if_server.c, from the acquired descriptor to the end.
use remote_debug_for_intel_f.Prelude.{
  u64, ℕ, ◌+◌, ◌≤◌, ◌<◌, ◌≡◌, refl, ap, ◌∙◌, inl, inr, true, false, List, ◌++◌, Option, none, some,
  arith, Run, ◌>>=◌, ◌>>◌, take, length, Bool-cases,
}
use remote_debug_for_intel_f.Prelude.Int.{ℤ}
use remote_debug_for_intel_f.Mmio.{Mmio}
use remote_debug_for_intel_f.Os.{Os, IsStream, KeepsSent}
use remote_debug_for_intel_f.Driver.{Device}
use remote_debug_for_intel_f.Sockets.{ReturnCode, ok, failure, init_err, other, socket_send_all}
use remote_debug_for_intel_f.Sockets.Send.{Sends, Refused, socket_send_all_lem}
use remote_debug_for_intel_f.Sockets.Send.Taken.{Sends-failed}
use remote_debug_for_intel_f.Server.{World, ClientConn, on_os, on_dev}
use remote_debug_for_intel_f.Server.H2t.{is_ok, header_bytes}
use remote_debug_for_intel_f.Server.T2h.{send_t2h, send_t2h_payload, t2h_complete}
use remote_debug_for_intel_f.Server.T2h.Pieces.{Sending, Sends-both, Sends-more}

module _ {N X : Type 0} (os : Os N) (m : Mmio X) (client : ClientConn) (n a : ℕ)
    (w : World N X) where
  -- The world of the payload: one packet more, and what sending the header left.
  abbrev pub counted : (s : N) → World N X
  counted s = record w {
    conn = record (w.conn) {
      pkt_stats = record (w.conn.pkt_stats) { t2h_cnt = u64 (w.conn.pkt_stats.t2h_cnt + 1) };
    };
    os = s;
  }

  header_fails :
      (rc : ReturnCode) (k : ℤ) (s : N)
      → is_ok rc ≡ false
      → socket_send_all os client.t2h_data_fd w.conn.buff.t2h_header_buff header_bytes 0 w.os
        ≡ some ((rc, k), s)
      → send_t2h os m client n a w ≡ some (rc, counted s)
  unfolding send_t2h
  header_fails rc k s no_ok e = rw (e, ◌>>=◌, ◌>>◌, on_os, no_ok) refl

  payload_fails :
      (rc rc' : ReturnCode) (k : ℤ) (s : N) (w' : World N X)
      → is_ok rc ≡ true
      → is_ok rc' ≡ false
      → socket_send_all os client.t2h_data_fd w.conn.buff.t2h_header_buff header_bytes 0 w.os
        ≡ some ((rc, k), s)
      → send_t2h_payload os m client a n (counted s) ≡ some (rc', w')
      → send_t2h os m client n a w ≡ some (rc', w')
  unfolding send_t2h
  payload_fails rc rc' k s w' yes_ok no_ok e p = rw (e, ◌>>=◌, ◌>>◌, on_os, yes_ok, p, no_ok) refl

  all_sent :
      (rc rc' : ReturnCode) (k : ℤ) (s : N) (w' w'' : World N X)
      → is_ok rc ≡ true
      → is_ok rc' ≡ true
      → socket_send_all os client.t2h_data_fd w.conn.buff.t2h_header_buff header_bytes 0 w.os
        ≡ some ((rc, k), s)
      → send_t2h_payload os m client a n (counted s) ≡ some (rc', w')
      → t2h_complete os m w' ≡ some (tt, w'')
      → send_t2h os m client n a w ≡ some (rc', w'')
  unfolding send_t2h
  all_sent rc rc' k s w' w'' yes_ok yes_ok' e p c =
      rw (e, ◌>>=◌, ◌>>◌, on_os, yes_ok, p, yes_ok', c) refl

module _ {N X : Type 0} (os : Os N) (m : Mmio X) where
  -- The callback that gives the descriptor back.
  pub complete_answers :
      (w : World N X) (complete : Run (Device X) (Unit {0})) (d : Device X)
      → w.conn.hw_callbacks.t2h_data_complete ≡ some complete
      → complete w.dev ≡ some (tt, d)
      → t2h_complete os m w ≡ some (tt, record w { dev = d })
  complete_answers w complete d here answer =
      let nothing : Option (Unit {0} × World N X) = some (tt, w) in
      ap (λ o. elim o [ none ↦ nothing | some f ↦ on_dev f w ]) here ∙ rw (on_dev, answer) refl

module _ {N X : Type 0} {os : Os N} (st : IsStream os) (client : ClientConn) where
  -- How sending a frame may end. With OK the socket took the whole frame and the descriptor was given
  -- back, which leads from the device `d` to `d'`. With FAILURE it took a proper prefix, the last call
  -- of `send` took nothing, and the device is still `d`.
  abbrev pub Delivers :
      ReturnCode → (s : N) (frame : List ℕ) (d d' : Device X) (w' : World N X) → Type 0
  Delivers ok s frame d d' w' =
      (st.sent client.t2h_data_fd w'.os ≡ st.sent client.t2h_data_fd s ++ frame) × (w'.dev ≡ d')
  Delivers failure s frame d d' w' =
      ((k : ℕ) × (k < length frame)
        × (st.sent client.t2h_data_fd w'.os ≡ st.sent client.t2h_data_fd s ++ take k frame))
      × ((t : N) × Refused st client.t2h_data_fd 0 t w'.os)
      × (w'.dev ≡ d)
  Delivers init_err s frame d d' w' = ⊥
  Delivers (other e) s frame d d' w' = ⊥

  Delivers-failed :
      (keeps : KeepsSent st) (rc : ReturnCode) (s : N) (frame : List ℕ) (d d' : Device X)
      (w' : World N X)
      → is_ok rc ≡ false
      → Sends st client.t2h_data_fd 0 rc s frame w'.os
      → w'.dev ≡ d
      → Delivers rc s frame d d' w'
  Delivers-failed keeps ok s frame d d' w' e h same = absurd (cc e)
  Delivers-failed keeps failure s frame d d' w' e (t, k, h, r, refused) same = (
    Sends-failed st client.t2h_data_fd 0 keeps s frame w'.os (t, k, h, r, refused),
    (t, refused),
    same,
  )
  Delivers-failed keeps init_err s frame d d' w' e h same = h
  Delivers-failed keeps (other k) s frame d d' w' e h same = h

  Delivers-ok :
      (rc : ReturnCode) (s : N) (frame : List ℕ) (d d' : Device X) (w' : World N X)
      → is_ok rc ≡ true
      → Sends st client.t2h_data_fd 0 rc s frame w'.os
      → w'.dev ≡ d'
      → Delivers rc s frame d d' w'
  Delivers-ok ok s frame d d' w' e h same = (h, same)
  Delivers-ok failure s frame d d' w' e h same = absurd (cc e)
  Delivers-ok init_err s frame d d' w' e h same = h
  Delivers-ok (other k) s frame d d' w' e h same = h

  pub record Delivered (s : N) (frame : List ℕ) (d d' : Device X)
      (out : Option (ReturnCode × World N X)) : Type 0 where
    pub rc : ReturnCode
    pub after : World N X
    pub returns : out ≡ some (rc, after)
    pub delivers : Delivers rc s frame d d' after

  pub send_t2h_lem :
      (keeps : KeepsSent st) (m : Mmio X) (n a size : ℕ) (w : World N X) (payload : List ℕ)
      (d' : Device X)
      → header_bytes ≤ length w.conn.buff.t2h_header_buff
      → ((s : N)
          → Sending st client.t2h_data_fd 0 size
              (counted os m client n a w s)
              payload
              (send_t2h_payload os m client a n (counted os m client n a w s)))
      → ((w' : World N X)
          → w'.conn.hw_callbacks ≡ w.conn.hw_callbacks
          → w'.dev ≡ w.dev
          → t2h_complete os m w' ≡ some (tt, record w' { dev = d' }))
      → Delivered w.os
          (take header_bytes w.conn.buff.t2h_header_buff ++ payload)
          w.dev
          d'
          (send_t2h os m client n a w)
  send_t2h_lem keeps m n a size w payload d' room pay complete =
      let head =
        socket_send_all_lem st client.t2h_data_fd 0 w.conn.buff.t2h_header_buff header_bytes w.os
          room (omega arith) in
      let frame = take header_bytes w.conn.buff.t2h_header_buff in
      elim (Bool-cases (is_ok (head.rc))) [
        | inr e ↦ record {
          rc = head.rc;
          after = counted os m client n a w head.s';
          returns = header_fails os m client n a w head.rc head.count head.s' e head.returns;
          delivers =
              Delivers-failed keeps head.rc w.os (frame ++ payload) w.dev d'
                (counted os m client n a w head.s') e
                (Sends-more st client.t2h_data_fd 0 head.rc w.os frame payload head.s' e head.sends)
                refl;
        }
        | inl e ↦
            let w' = counted os m client n a w head.s' in
            let tail = pay head.s' in
            let w'' = record w' { send_buff = some (tail.host); os = tail.s' } in
            let both =
              Sends-both st client.t2h_data_fd 0 head.rc tail.rc w.os head.s' frame payload tail.s'
                e head.sends tail.sends in
            elim (Bool-cases (is_ok (tail.rc))) [
              | inr e' ↦ record {
                rc = tail.rc;
                after = w'';
                returns =
                    payload_fails os m client n a w head.rc tail.rc head.count head.s' w'' e e'
                      head.returns tail.returns;
                delivers =
                    Delivers-failed keeps tail.rc w.os (frame ++ payload) w.dev d' w'' e' both refl;
              }
              | inl e' ↦ record {
                rc = tail.rc;
                after = record w'' { dev = d' };
                returns =
                    all_sent os m client n a w head.rc tail.rc head.count head.s' w''
                      (record w'' { dev = d' }) e e' head.returns tail.returns
                      (complete w'' refl refl);
                delivers =
                    Delivers-ok tail.rc w.os (frame ++ payload) w.dev d' (record w'' { dev = d' })
                      e' both refl;
              }
            ]
      ]
