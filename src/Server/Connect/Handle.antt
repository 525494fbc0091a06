-- ===== src/Server/Connect/Handle.antt =====
-- The handle that a client has to name, acknowledge_handle of Server/Connect, over a stream socket.
use remote_debug_for_intel_f.Prelude.{
  ℕ, ◌≤◌, ◌<◌, ◌≡◌, refl, sym, ap, ◌∙◌, take, append-nil, inl, inr, true, false, Bool, List, [],
  ◌∷◌, ◌++◌, Option, some, arith, ◌>>=◌, ◌>>◌, length, drop, ◌⊎◌, append_assoc,
}
use remote_debug_for_intel_f.Prelude.Int.{ℤ}
use remote_debug_for_intel_f.CString.{strncmp_eq, codes}
use remote_debug_for_intel_f.CString.Decimal.{decimal}
use remote_debug_for_intel_f.Common.{generate_expected_handle_message}
use remote_debug_for_intel_f.Common.Handle.{snprintf-whole}
use remote_debug_for_intel_f.Os.{Os, IsStream, KeepsSent}
use remote_debug_for_intel_f.Sockets.{
  ReturnCode, ok, failure, init_err, other, has_null, socket_send_all,
  socket_recv_until_null_reached,
}
use remote_debug_for_intel_f.Sockets.Send.{Sends, Refused, socket_send_all_lem}
use remote_debug_for_intel_f.Sockets.Send.Taken.{Sends-failed, Sends-prefix}
use remote_debug_for_intel_f.Sockets.UntilNull.{
  Finds, Recvs-sent, ReceivedText, socket_recv_until_null_reached_lem,
}
use remote_debug_for_intel_f.Server.{World, on_os}
use remote_debug_for_intel_f.Server.Message
use remote_debug_for_intel_f.Server.Connect.{acknowledge_handle, max_handle_rsp}
use remote_debug_for_intel_f.Server.Connect.Names.{Names, Tells, strncmp-text, without_null}
use remote_debug_for_intel_f.Server.Params.{string}

abbrev pub handle_text : (name : List ℕ) (handle : ℕ) → List ℕ
handle_text name handle = name ++ (codes " HANDLE=" ++ decimal handle)

module _ {N : Type 0} {os : Os N} (st : IsStream os) (fd : ℤ) (text : List ℕ) where
  -- How the handshake on one socket ends when the bytes `bs` have come, from the state `s` of the
  -- system to `s'`. READY is only sent to a client that has named the text, and one that has is only
  -- turned down when a call of `send` takes nothing of READY any more.
  abbrev pub Answers : ReturnCode → (bs : List ℕ) (s s' : N) → Type 0
  Answers ok bs s s' = Names text bs × (st.sent fd s' ≡ st.sent fd s ++ Message.ready_msg)
  Answers failure bs s s' =
      ((¬ Names text bs)
        × ((k : ℕ) × (st.sent fd s' ≡ st.sent fd s ++ take k Message.not_ready_msg)))
      ⊎ (Names text bs
          × ((k : ℕ) × (k < length Message.ready_msg)
              × (st.sent fd s' ≡ st.sent fd s ++ take k Message.ready_msg))
          × ((t : N) × Refused st fd 0 t s'))
  Answers init_err bs s s' = ⊥
  Answers (other e) bs s s' = ⊥

  -- `bs` are the bytes that socket_recv_until_null_reached stores when it is called in `w`.
  pub record Acknowledged {X : Type 0} (w : World N X) (out : Option (ReturnCode × World N X))
      : Type 0 where
    pub rc : ReturnCode
    pub w' : World N X
    pub returns : out ≡ some (rc, w')
    pub text_comes :
        ReceivedText st fd 0 max_handle_rsp w.os [] w.conn.buff.ctrl_rx_buff
          (socket_recv_until_null_reached os fd w.conn.buff.ctrl_rx_buff max_handle_rsp 0 w.os)
    pub answers : Answers rc text_comes.bs w.os w'.os

module _ {N X : Type 0} {os : Os N} (st : IsStream os) (fd : ℤ) (name : List ℕ) (handle : ℕ) where
  module _ (w : World N X) where
    abbrev room : List ℕ
    room = w.conn.buff.ctrl_rx_buff

    abbrev read : (rx : List ℕ) (t : N) → World N X
    read rx t = record w {
      conn = record (w.conn) { buff = record (w.conn.buff) { ctrl_rx_buff = rx } };
      os = t;
    }

    abbrev wrote : (rx tx : List ℕ) (s : N) → World N X
    wrote rx tx s = record w {
      conn = record (w.conn) {
        buff = record (w.conn.buff) { ctrl_rx_buff = rx; ctrl_tx_buff = tx };
      };
      os = s;
    }

    ack_unread :
        (k : ℤ) (rx : List ℕ) (t : N)
        → socket_recv_until_null_reached os fd room max_handle_rsp 0 w.os
          ≡ some ((failure, k, rx), t)
        → acknowledge_handle os fd name handle w ≡ some (failure, read rx t)
    unfolding acknowledge_handle
    ack_unread k rx t e = rw (e, ◌>>=◌, ◌>>◌, on_os) refl

    module _ (k : ℤ) (rx tx : List ℕ) (t : N)
        (comes : socket_recv_until_null_reached os fd room max_handle_rsp 0 w.os
          ≡ some ((ok, k, rx), t))
        (expects : generate_expected_handle_message w.conn.buff.ctrl_tx_buff
            w.conn.buff.ctrl_tx_buff_sz name handle
          ≡ some tx) where
      ack_other :
          (rc : ReturnCode) (n : ℤ) (s : N)
          → strncmp_eq rx tx max_handle_rsp ≡ some false
          → socket_send_all os fd Message.not_ready_msg 10 0 t ≡ some ((rc, n), s)
          → acknowledge_handle os fd name handle w ≡ some (failure, wrote rx tx s)
      unfolding acknowledge_handle
      ack_other rc n s c e = rw (comes, ◌>>=◌, ◌>>◌, on_os, expects, string, c, e) refl

      ack_named :
          (rc : ReturnCode) (n : ℤ) (s : N)
          → strncmp_eq rx tx max_handle_rsp ≡ some true
          → socket_send_all os fd Message.ready_msg 6 0 t ≡ some ((rc, n), s)
          → acknowledge_handle os fd name handle w ≡ some (rc, wrote rx tx s)
      unfolding acknowledge_handle
      ack_named rc n s c e = rw (comes, ◌>>=◌, ◌>>◌, on_os, expects, string, c, e) refl

    -- What is received at the start, and then compared and answered.
    abbrev Coming : Type 0
    Coming =
        ReceivedText st fd 0 max_handle_rsp w.os [] room
          (socket_recv_until_null_reached os fd room max_handle_rsp 0 w.os)

    abbrev Result : Type 0
    Result = Acknowledged st fd (handle_text name handle) w (acknowledge_handle os fd name handle w)

    module _ (keeps : KeepsSent st) (got : Coming) (tx : List ℕ)
        (comes : socket_recv_until_null_reached os fd room max_handle_rsp 0 w.os
          ≡ some ((ok, got.count, got.buff), got.s'))
        (expects : generate_expected_handle_message w.conn.buff.ctrl_tx_buff
            w.conn.buff.ctrl_tx_buff_sz name handle
          ≡ some tx) where
      -- Receiving has sent nothing.
      still : (bs : List ℕ) → st.sent fd (got.s') ++ bs ≡ st.sent fd w.os ++ bs
      still bs = ap (λ l. l ++ bs) (Recvs-sent st fd 0 keeps w.os (got.s') (got.calls))

      named :
          strncmp_eq (got.buff) tx max_handle_rsp ≡ some true
          → Names (handle_text name handle) (got.bs)
          → (rc : ReturnCode) (n : ℤ) (s : N)
          → socket_send_all os fd Message.ready_msg 6 0 (got.s') ≡ some ((rc, n), s)
          → Sends st fd 0 rc (got.s') Message.ready_msg s
          → Result
      named c names ok n s e sends = record {
        rc = ok;
        w' = wrote (got.buff) tx s;
        returns = ack_named (got.count) (got.buff) tx (got.s') comes expects ok n s c e;
        text_comes = got;
        answers = (names, sends ∙ still Message.ready_msg);
      }
      named c names failure n s e (t, j, h, r, refused) =
          let (k, few, end) =
            Sends-failed st fd 0 keeps (got.s') Message.ready_msg s (t, j, h, r, refused) in
          record {
            rc = failure;
            w' = wrote (got.buff) tx s;
            returns = ack_named (got.count) (got.buff) tx (got.s') comes expects failure n s c e;
            text_comes = got;
            answers = inr (names, (k, few, end ∙ still (take k Message.ready_msg)), (t, refused));
          }
      named c names init_err n s e sends = absurd sends
      named c names (other m) n s e sends = absurd sends

      compared :
          (b : Bool)
          → strncmp_eq (got.buff) tx max_handle_rsp ≡ some b
          → Tells b (handle_text name handle) (got.bs)
          → Result
      compared true c names =
          let sent =
            socket_send_all_lem st fd 0 Message.ready_msg 6 (got.s') (omega arith) (omega arith) in
          named c names sent.rc sent.count sent.s' sent.returns sent.sends
      compared false c names =
          let sent =
            socket_send_all_lem st fd 0 Message.not_ready_msg 10 (got.s') (omega arith)
              (omega arith) in
          let (k, end) =
            Sends-prefix st fd 0 keeps sent.rc (got.s') Message.not_ready_msg sent.s' sent.sends in
          record {
            rc = failure;
            w' = wrote (got.buff) tx sent.s';
            returns =
                ack_other (got.count) (got.buff) tx (got.s') comes expects sent.rc sent.count
                  sent.s' c sent.returns;
            text_comes = got;
            answers = inl (names, (k, end ∙ still (take k Message.not_ready_msg)));
          }

  -- The connection is ready for a handle message of `name`: it fits, and holds no NUL.
  pub record HasRoom (w : World N X) : Type 0 where
    pub text : has_null (handle_text name handle) ≡ false
    pub short : length (handle_text name handle) < max_handle_rsp
    pub fits : length (handle_text name handle) < w.conn.buff.ctrl_tx_buff_sz
    pub tx : w.conn.buff.ctrl_tx_buff_sz ≤ length w.conn.buff.ctrl_tx_buff
    pub rx : max_handle_rsp ≤ length w.conn.buff.ctrl_rx_buff

  received :
      (keeps : KeepsSent st) (w : World N X)
      → HasRoom w
      → (got : Coming w) (rc : ReturnCode)
      → socket_recv_until_null_reached os fd w.conn.buff.ctrl_rx_buff max_handle_rsp 0 w.os
        ≡ some ((rc, got.count, got.buff), got.s')
      → Finds rc (got.bs)
      → Result w
  unfolding generate_expected_handle_message
  received keeps w has got ok e finds =
      let text = handle_text name handle in
      let b = w.conn.buff in
      let tail = drop (length (text ++ (0 ∷ []))) b.ctrl_tx_buff in
      let left = drop (length (got.bs)) b.ctrl_rx_buff in
      let (answer, runs, tells) =
        strncmp-text text (got.bs) left tail max_handle_rsp has.text finds has.short in
      compared w keeps got ((text ++ (0 ∷ [])) ++ tail) e
        (snprintf-whole b.ctrl_tx_buff b.ctrl_tx_buff_sz text has.fits has.tx) answer
        ((λ i. strncmp_eq (got.stores.stored i) (append_assoc text (0 ∷ []) tail i) max_handle_rsp)
          ∙ runs)
        tells
  received keeps w has got failure e finds = record {
    rc = failure;
    w' = read w (got.buff) (got.s');
    returns = ack_unread w (got.count) (got.buff) (got.s') e;
    text_comes = got;
    answers = inl (
      without_null (handle_text name handle) (got.bs) finds,
      (0, Recvs-sent st fd 0 keeps w.os (got.s') (got.calls) ∙ sym (append-nil (st.sent fd w.os))),
    );
  }
  received keeps w has got init_err e finds = absurd finds
  received keeps w has got (other n) e finds = absurd finds

  -- The handshake on one socket. For a message `NAME HANDLE=n` without a NUL, shorter than 64 bytes
  -- and than the control buffer for sending, which has the bytes that its size tells, and a control
  -- buffer for receiving of at least 64 bytes: on a stream socket of which `recv` and a failed
  -- `send` send nothing, `acknowledge_handle` returns OK or FAILURE. What decides are the bytes
  -- that socket_recv_until_null_reached gets when it is called at the start, at most 64, the next
  -- ones of the client. With OK they start with exactly the message and a NUL, and in the end the
  -- client has been sent READY with its NUL and nothing else. With FAILURE, either they do not, and
  -- the client has been sent a prefix of NOT_READY, possibly nothing; or they do, it has been sent
  -- a proper prefix of READY, and the state of the system is what a call of `send` left that took
  -- nothing.
  pub acknowledge_handle-Acknowledged :
      (keeps : KeepsSent st) (w : World N X)
      → HasRoom w
      → Acknowledged st fd (handle_text name handle) w (acknowledge_handle os fd name handle w)
  acknowledge_handle-Acknowledged keeps w has =
      let got =
        socket_recv_until_null_reached_lem st fd 0 max_handle_rsp w.conn.buff.ctrl_rx_buff w.os
          has.rx (omega arith) in
      received keeps w has got got.rc got.returns got.finds
