-- ===== src/Server/Framed/Reachable.antt =====
-- The states of the server of streaming/src/intel_st_debug_if_server.c between the functions that
-- initialize_server, server_main and handle_client call.
use remote_debug_for_intel_f.Prelude.{
  ℕ, arith, ◌≡◌, refl, Bool, List, ◌∷◌, ◌++◌, some, ◌>>=◌, ◌>>◌, sym, subst, length,
}
use remote_debug_for_intel_f.Prelude.Int.{ℤ}
use remote_debug_for_intel_f.Packet.{populate_guardband, packet_guardband}
use remote_debug_for_intel_f.Mmio.{Mmio}
use remote_debug_for_intel_f.Os.{Os}
use remote_debug_for_intel_f.Sockets.{ReturnCode, ok}
use remote_debug_for_intel_f.Server.{ServerBuffers, World, ClientConn, reset_buffers}
use remote_debug_for_intel_f.Server.Keeps.{
  Keeps, Keeps-if-at, Keeps-modify, Keeps-set_conn, keeps_rules,
}
use remote_debug_for_intel_f.Server.H2t.{header_bytes, process_h2t_data}
use remote_debug_for_intel_f.Server.T2h.{process_t2h_data}
use remote_debug_for_intel_f.Server.T2h.Guardband.{HasGuardband}
use remote_debug_for_intel_f.Server.Framed.{IsFramed}
use remote_debug_for_intel_f.Server.Framed.Commands.{
  reject_client-IsFramed, process_control_message-IsFramed,
}
use remote_debug_for_intel_f.Server.Framed.Data.{process_h2t_data-IsFramed}
use remote_debug_for_intel_f.Server.Framed.Frames.{process_t2h_data-IsFramed}
use remote_debug_for_intel_f.Server.Framed.Mgmt.{
  process_mgmt_data-IsFramed, process_mgmt_rsp_data-IsFramed,
}
use remote_debug_for_intel_f.Server.Framed.Life.{
  connect_client-IsFramed, close_client_conn-IsFramed, reset_buffers-IsFramed,
}
use remote_debug_for_intel_f.Server.Mgmt.{process_mgmt_data, process_mgmt_rsp_data}
use remote_debug_for_intel_f.Server.Control.{process_control_message}
use remote_debug_for_intel_f.Server.Connect.{
  bind_server_socket, configure_server_socket, connect_client, reject_client, close_client_conn,
}
use remote_debug_for_intel_f.Server.Loop.{initialize_server, listen_on, read_port}

populate_guardband-HasGuardband :
    (bytes : List ℕ)
    → length bytes ≡ header_bytes
    → (bytes' : List ℕ) × (populate_guardband 0 bytes ≡ some (tt, bytes')) × HasGuardband bytes'
unfolding populate_guardband
populate_guardband-HasGuardband (a ∷ b ∷ c ∷ d ∷ rest) l =
    (packet_guardband ++ rest, refl, record { size = l; guard = refl })
populate_guardband-HasGuardband _ l = absurd (omega arith)

-- The header buffers have the size of a header with its guard band.
pub record HasHeaders (b : ServerBuffers) : Type 0 where
  pub t2h : length b.t2h_header_buff ≡ header_bytes
  pub mgmt_rsp : length b.mgmt_rsp_header_buff ≡ header_bytes
  pub h2t : length b.h2t_header_buff ≡ header_bytes
  pub mgmt : length b.mgmt_header_buff ≡ header_bytes

module _ {N X : Type 0} (start : ServerBuffers) (os : Os N) (m : Mmio X) where
  bind_server_socket-IsFramed : Keeps {N = N} {X = X} (IsFramed start) (bind_server_socket os)
  unfolding bind_server_socket configure_server_socket
  bind_server_socket-IsFramed = search (keeps_rules, Keeps-set_conn) depth 60

  read_port-IsFramed : (fd : ℤ) → Keeps {N = N} {X = X} (IsFramed start) (read_port os m fd)
  read_port-IsFramed fd =
      let asked : World N X → World N X = λ w. record w { os = (os.getsockname fd w.os).2 } in
      let told : World N X → World N X = λ w. record w {
        conn = record (w.conn) { server_port = (os.getsockname fd w.os).1 };
        os = (os.getsockname fd w.os).2;
      } in
      Keeps-if-at _ (λ _ w. some (tt, asked w)) (λ _ w. some (tt, told w))
        (λ _. Keeps-modify asked (λ w h. h)) (λ _. Keeps-modify told (λ w h. h))

  listen_on-IsFramed :
      (port : ℕ) (name : List ℕ) → Keeps {N = N} {X = X} (IsFramed start) (listen_on os m port name)
  unfolding listen_on
  listen_on-IsFramed port name =
      search (keeps_rules, Keeps-set_conn, bind_server_socket-IsFramed, read_port-IsFramed) depth 60

module _ {N X : Type 0} (os : Os N) (m : Mmio X) where
  initialize_server-IsFramed :
      (port : ℕ) (name : List ℕ) (w : World N X) (rc : ReturnCode) (w' : World N X)
      → HasHeaders w.conn.buff
      → initialize_server os m port name w ≡ some (rc, w')
      → IsFramed w.conn.buff w'.conn.buff
  unfolding initialize_server
  initialize_server-IsFramed port name w rc w' h e =
      let (mgmt_rsp, wrote, one) =
        populate_guardband-HasGuardband w.conn.buff.mgmt_rsp_header_buff h.mgmt_rsp in
      let (t2h, wrote', two) = populate_guardband-HasGuardband w.conn.buff.t2h_header_buff h.t2h in
      (listen_on-IsFramed w.conn.buff os m port name).at
        (record w {
          conn = record (w.conn) {
            buff = record (w.conn.buff) { mgmt_rsp_header_buff = mgmt_rsp; t2h_header_buff = t2h };
          };
        })
        rc w'
        (record {
          t2h = two;
          mgmt_rsp = one;
          h2t = h.h2t;
          mgmt = h.mgmt;
          wrapping = refl;
          h2t_rx_buff = refl;
          h2t_rx_buff_sz = refl;
          t2h_tx_buff = refl;
          t2h_tx_buff_sz = refl;
        })
        (rw (wrote, wrote', ◌>>=◌, ◌>>◌) at e)

-- A state of the server once `initialize_server` has answered OK, `start` being its buffers before.
-- Every function that `server_main` and `handle_client` call is a step, in whatever order; so is
-- all that happens to the system, the device and the two copies of a payload.
pub data Reachable {N X : Type 0} (os : Os N) (m : Mmio X) (start : ServerBuffers)
    : World N X → Type 0 where
  initialized :
      (port : ℕ) (name : List ℕ) (w : World N X) {w' : World N X}
      → w.conn.buff ≡ start
      → initialize_server os m port name w ≡ some (ok, w')
      → Reachable os m start w'
  connected :
      (draws : ℕ) (mmio_handle : ℤ) (client : ClientConn) {w : World N X}
      (answer : ReturnCode × ClientConn) {w' : World N X}
      → Reachable os m start w
      → connect_client os draws mmio_handle client w ≡ some (answer, w')
      → Reachable os m start w'
  rejected :
      {w w' : World N X}
      → Reachable os m start w
      → reject_client os w ≡ some (tt, w')
      → Reachable os m start w'
  commanded :
      (client : ClientConn) {w : World N X} (answer : ReturnCode × Bool) {w' : World N X}
      → Reachable os m start w
      → process_control_message os client w ≡ some (answer, w')
      → Reachable os m start w'
  got_mgmt :
      (client : ClientConn) {w : World N X} (rc : ReturnCode) {w' : World N X}
      → Reachable os m start w
      → process_mgmt_data os client w ≡ some (rc, w')
      → Reachable os m start w'
  got_h2t :
      (client : ClientConn) {w : World N X} (rc : ReturnCode) {w' : World N X}
      → Reachable os m start w
      → process_h2t_data os m client w ≡ some (rc, w')
      → Reachable os m start w'
  gave_mgmt_rsp :
      (client : ClientConn) {w : World N X} (rc : ReturnCode) {w' : World N X}
      → Reachable os m start w
      → process_mgmt_rsp_data os client w ≡ some (rc, w')
      → Reachable os m start w'
  gave_t2h :
      (client : ClientConn) {w : World N X} (rc : ReturnCode) {w' : World N X}
      → Reachable os m start w
      → process_t2h_data os m client w ≡ some (rc, w')
      → Reachable os m start w'
  closed :
      (client : ClientConn) {w : World N X} (rc : ReturnCode) {w' : World N X}
      → Reachable os m start w
      → close_client_conn os client w ≡ some (rc, w')
      → Reachable os m start w'
  reset :
      {w w' : World N X}
      → Reachable os m start w
      → reset_buffers w ≡ some (tt, w')
      → Reachable os m start w'
  outside : {w w' : World N X} → Reachable os m start w → w'.conn ≡ w.conn → Reachable os m start w'

module _ {N X : Type 0} (os : Os N) (m : Mmio X) (start : ServerBuffers) where
  -- Where the four header buffers have ten bytes before `initialize_server`, in every state of the
  -- server that is reached afterwards by its functions, in any order, they still do, the two that
  -- go out start with the guard band, and the start and size of the H2T and T2H memories and the
  -- flag for wrapping are what they were.
  pub Reachable-IsFramed :
      (w : World N X) → HasHeaders start → Reachable os m start w → IsFramed start w.conn.buff
  Reachable-IsFramed w h (initialized port name w0 e step) =
      subst (λ b. IsFramed b w.conn.buff) e
        (initialize_server-IsFramed os m port name w0 ok w (subst HasHeaders (sym e) h) step)
  Reachable-IsFramed w h (connected draws mmio_handle client {w = w0} answer r step) =
      (connect_client-IsFramed start os draws mmio_handle client).at w0 answer w
        (Reachable-IsFramed w0 h r) step
  Reachable-IsFramed w h (rejected {w = w0} r step) =
      (reject_client-IsFramed start os).at w0 tt w (Reachable-IsFramed w0 h r) step
  Reachable-IsFramed w h (commanded client {w = w0} answer r step) =
      (process_control_message-IsFramed start os client).at w0 answer w (Reachable-IsFramed w0 h r)
        step
  Reachable-IsFramed w h (got_mgmt client {w = w0} rc r step) =
      (process_mgmt_data-IsFramed start os client).at w0 rc w (Reachable-IsFramed w0 h r) step
  Reachable-IsFramed w h (got_h2t client {w = w0} rc r step) =
      (process_h2t_data-IsFramed start os m client).at w0 rc w (Reachable-IsFramed w0 h r) step
  Reachable-IsFramed w h (gave_mgmt_rsp client {w = w0} rc r step) =
      (process_mgmt_rsp_data-IsFramed start os client).at w0 rc w (Reachable-IsFramed w0 h r) step
  Reachable-IsFramed w h (gave_t2h client {w = w0} rc r step) =
      (process_t2h_data-IsFramed start os m client).at w0 rc w (Reachable-IsFramed w0 h r) step
  Reachable-IsFramed w h (closed client {w = w0} rc r step) =
      (close_client_conn-IsFramed start os client).at w0 rc w (Reachable-IsFramed w0 h r) step
  Reachable-IsFramed w h (reset {w = w0} r step) =
      (reset_buffers-IsFramed start os).at w0 tt w (Reachable-IsFramed w0 h r) step
  Reachable-IsFramed w h (outside {w = w0} r same) =
      subst (λ c. IsFramed start c.buff) (sym same) (Reachable-IsFramed w0 h r)
