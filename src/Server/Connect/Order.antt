-- ===== src/Server/Connect/Order.antt =====
-- The sockets of a client that has been connected, connect_client of Server/Connect.
use mathlib.Core.Bool.{true≢false}
use remote_debug_for_intel_f.Prelude.{
  ℕ, ◌≡◌, refl, sym, ◌∙◌, ◌⊎◌, inl, inr, Bool, true, false, not, List, some, Run, ◌>>=◌,
  if◌then◌else◌,
}
use remote_debug_for_intel_f.Prelude.Int.{ℤ}
use remote_debug_for_intel_f.Os.{Os}
use remote_debug_for_intel_f.Sockets.{ReturnCode, ok, failure, init_err, other}
use remote_debug_for_intel_f.Server.{ClientConn, World}
use remote_debug_for_intel_f.Server.H2t.{is_ok}
use remote_debug_for_intel_f.Server.Connect.Gives.{
  Gives, Gives-pure, Gives-after, Gives-bind, Gives-read, Gives-then, Gives-if,
}
use remote_debug_for_intel_f.Server.Connect.{
  valid, connect_client_socket, connect_ctrl, connect_next, connect_sockets, connect_client,
}

valid-not : (b : Bool) → not b ≡ false → b ≡ true
valid-not true e = refl
valid-not false e = absurd (true≢false e)

-- OK comes with a descriptor.
abbrev HasSocket : ReturnCode × ℤ → Type 0
HasSocket (rc, fd) = is_ok rc ≡ true → valid fd ≡ true

no_socket : (fd : ℤ) → HasSocket (failure, fd)
no_socket fd e = absurd (true≢false (sym e))

-- What the next socket tells of the answer `rc0` before it: if that was not OK, the field stays.
abbrev Follows : (rc0 : ReturnCode) (old_fd : ℤ) → ReturnCode × ℤ → Type 0
Follows rc0 old_fd (rc, fd) =
    (is_ok rc ≡ true → (is_ok rc0 ≡ true) × (valid fd ≡ true))
    × ((fd ≡ old_fd) ⊎ (is_ok rc0 ≡ true))

-- The fields of `c`, where those of `old` have been filled in turn: each is as it was, or all the
-- sockets before it are valid.
pub record InOrder (old c : ClientConn) : Type 0 where
  pub mgmt : (c.mgmt_fd ≡ old.mgmt_fd) ⊎ (valid c.ctrl_fd ≡ true)
  pub mgmt_rsp :
      (c.mgmt_rsp_fd ≡ old.mgmt_rsp_fd) ⊎ ((valid c.ctrl_fd ≡ true) × (valid c.mgmt_fd ≡ true))
  pub h2t_data :
      (c.h2t_data_fd ≡ old.h2t_data_fd)
      ⊎ ((valid c.ctrl_fd ≡ true) × (valid c.mgmt_fd ≡ true) × (valid c.mgmt_rsp_fd ≡ true))
  pub t2h_data :
      (c.t2h_data_fd ≡ old.t2h_data_fd)
      ⊎ ((valid c.ctrl_fd ≡ true)
          × (valid c.mgmt_fd ≡ true)
          × (valid c.mgmt_rsp_fd ≡ true)
          × (valid c.h2t_data_fd ≡ true))

pub record AllValid (c : ClientConn) : Type 0 where
  pub ctrl : valid c.ctrl_fd ≡ true
  pub mgmt : valid c.mgmt_fd ≡ true
  pub mgmt_rsp : valid c.mgmt_rsp_fd ≡ true
  pub h2t_data : valid c.h2t_data_fd ≡ true
  pub t2h_data : valid c.t2h_data_fd ≡ true

abbrev Connected : (old : ClientConn) → ReturnCode × ClientConn → Type 0
Connected old (rc, c) = InOrder old c × (is_ok rc ≡ true → AllValid c)

-- What each answer of connect_client tells of the client.
abbrev pub Outcome : (client : ClientConn) → ReturnCode × ClientConn → Type 0
Outcome client (ok, c) = AllValid c
Outcome client (failure, c) = InOrder client c
Outcome client (init_err, c) = c ≡ client
Outcome client (other e, c) = ⊥

greeted :
    (client : ClientConn) (answer : ReturnCode × ClientConn) (b : Bool)
    → Connected client answer
    → is_ok (answer.0) ≡ true
    → Outcome client ((if b then ok else failure), answer.1)
greeted client (rc, c) true (order, all) went = all went
greeted client (rc, c) false (order, all) went = order

unmet :
    (client : ClientConn) (answer : ReturnCode × ClientConn)
    → Connected client answer
    → Outcome client (failure, answer.1)
unmet client (rc, c) (order, all) = order

has_socket : (fd : ℤ) (rc : ReturnCode) → not (valid fd) ≡ false → HasSocket (rc, fd)
has_socket fd rc h e = valid-not (valid fd) h

or_else : {A B C : Type 0} → A ⊎ B → (B → C) → A ⊎ C
or_else (inl a) f = inl a
or_else (inr b) f = inr (f b)

ordered :
    (old : ClientConn) (ctrl mgmt mgmt_rsp h2t t2h : ReturnCode × ℤ)
    → HasSocket ctrl
    → Follows (ctrl.0) old.mgmt_fd mgmt
    → Follows (mgmt.0) old.mgmt_rsp_fd mgmt_rsp
    → Follows (mgmt_rsp.0) old.h2t_data_fd h2t
    → Follows (h2t.0) old.t2h_data_fd t2h
    → Connected old (
      t2h.0,
      record {
        ctrl_fd = ctrl.1;
        mgmt_fd = mgmt.1;
        mgmt_rsp_fd = mgmt_rsp.1;
        h2t_data_fd = h2t.1;
        t2h_data_fd = t2h.1;
      },
    )
ordered old ctrl mgmt mgmt_rsp h2t t2h h0 h1 h2 h3 h4 =
    let one : is_ok (mgmt.0) ≡ true → (valid (ctrl.1) ≡ true) × (valid (mgmt.1) ≡ true) =
      λ e. (h0 (h1.0 e).0, (h1.0 e).1) in
    let two : is_ok (mgmt_rsp.0) ≡ true
        → (valid (ctrl.1) ≡ true) × (valid (mgmt.1) ≡ true) × (valid (mgmt_rsp.1) ≡ true) =
      λ e. ((one (h2.0 e).0).0, (one (h2.0 e).0).1, (h2.0 e).1) in
    let three : is_ok (h2t.0) ≡ true
        → (valid (ctrl.1) ≡ true)
          × (valid (mgmt.1) ≡ true)
          × (valid (mgmt_rsp.1) ≡ true)
          × (valid (h2t.1) ≡ true) =
      λ e. ((two (h3.0 e).0).0, (two (h3.0 e).0).1, (two (h3.0 e).0).2, (h3.0 e).1) in
    (
      record {
        mgmt = or_else (h1.1) h0;
        mgmt_rsp = or_else (h2.1) one;
        h2t_data = or_else (h3.1) two;
        t2h_data = or_else (h4.1) three;
      },
      λ e. record {
        ctrl = (three (h4.0 e).0).0;
        mgmt = (three (h4.0 e).0).1;
        mgmt_rsp = (three (h4.0 e).0).2;
        h2t_data = (three (h4.0 e).0).3;
        t2h_data = (h4.0 e).1;
      },
    )

module _ {N X : Type 0} (os : Os N) where
  connect_client_socket-Gives :
      (handle : ℕ) (name : List ℕ) (nagle : Bool)
      → Gives {S = World N X} HasSocket (connect_client_socket os handle name nagle)
  unfolding connect_client_socket
  connect_client_socket-Gives handle name nagle =
      search (Gives-bind, Gives-if, Gives-pure, no_socket, has_socket) depth 40

  connect_ctrl-Gives : (handle : ℕ) → Gives {S = World N X} HasSocket (connect_ctrl os handle)
  unfolding connect_ctrl
  connect_ctrl-Gives handle =
      search (Gives-bind, Gives-then, Gives-if, Gives-pure, no_socket, has_socket) depth 40

  connect_next-Gives :
      (rc0 : ReturnCode) (old_fd : ℤ) (handle : ℕ) (name : List ℕ) (nagle : Bool)
      → Gives {S = World N X} (Follows rc0 old_fd) (connect_next os rc0 old_fd handle name nagle)
  connect_next-Gives rc0 old_fd handle name nagle =
      Gives-if (is_ok rc0) _ _
        (λ went_well. record {
          at = λ s (rc, fd) s' e. (
            λ yes.
                (went_well, (connect_client_socket-Gives handle name nagle).at s (rc, fd) s' e yes),
            inr went_well,
          );
        })
        (λ failed.
          Gives-pure (rc0, old_fd) (λ yes. absurd (true≢false (sym yes ∙ failed)), inl refl))

  after_ctrl :
      {A : Type 0} {Q : A → Type 0} (handle : ℕ) (f : ReturnCode × ℤ → Run (World N X) A)
      → ((b : ReturnCode × ℤ) → HasSocket b → Gives Q (f b))
      → Gives Q (connect_ctrl os handle >>= f)
  after_ctrl handle f h = Gives-after HasSocket _ f (connect_ctrl-Gives handle) h

  after_next :
      {A : Type 0} {Q : A → Type 0} (rc : ReturnCode) (old_fd : ℤ) (handle : ℕ) (name : List ℕ)
      (nagle : Bool) (f : ReturnCode × ℤ → Run (World N X) A)
      → ((b : ReturnCode × ℤ) → Follows rc old_fd b → Gives Q (f b))
      → Gives Q (connect_next os rc old_fd handle name nagle >>= f)
  after_next rc old_fd handle name nagle f h =
      Gives-after (Follows rc old_fd) _ f (connect_next-Gives rc old_fd handle name nagle) h

  connect_sockets-Gives :
      (handle : ℕ) (client : ClientConn)
      → Gives {S = World N X} (Connected client) (connect_sockets os handle client)
  unfolding connect_sockets
  connect_sockets-Gives handle client =
      search (after_ctrl, after_next, Gives-read, Gives-pure, ordered client) depth 40

  after_sockets :
      {A : Type 0} {Q : A → Type 0} (handle : ℕ) (client : ClientConn)
      (f : ReturnCode × ClientConn → Run (World N X) A)
      → ((b : ReturnCode × ClientConn) → Connected client b → Gives Q (f b))
      → Gives Q (connect_sockets os handle client >>= f)
  after_sockets handle client f h =
      Gives-after (Connected client) _ f (connect_sockets-Gives handle client) h

  connect_client-Gives :
      (draws : ℕ) (mmio_handle : ℤ) (client : ClientConn)
      → Gives {S = World N X} (Outcome client) (connect_client os draws mmio_handle client)
  unfolding connect_client
  connect_client-Gives draws mmio_handle client =
      search (after_sockets, Gives-bind, Gives-then, Gives-if, Gives-pure, greeted, unmet) depth 60

  -- What each answer of `connect_client` says of the client's five sockets, on any system and
  -- device and for any client that goes in. With OK all five are valid. With FAILURE each of the
  -- management, management response, H2T and T2H sockets is the one that went in, or all the
  -- sockets before it in this order, from the control socket on, are valid. With INIT_ERR the
  -- client is the one that went in. There is no other answer.
  pub connect_client-Outcome :
      (draws : ℕ) (mmio_handle : ℤ) (client : ClientConn) (w : World N X)
      (answer : ReturnCode × ClientConn) (w' : World N X)
      → connect_client os draws mmio_handle client w ≡ some (answer, w')
      → Outcome client answer
  connect_client-Outcome draws mmio_handle client =
      (connect_client-Gives draws mmio_handle client).at
