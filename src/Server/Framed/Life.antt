-- ===== src/Server/Framed/Life.antt =====
-- The life of the server, streaming/src/intel_st_debug_if_server.c, and the framed buffers.
use remote_debug_for_intel_f.Prelude.{
  ℕ, zero, suc, ◌≡◌, refl, inl, inr, Bool, List, Option, none, some, Option-cases,
}
use remote_debug_for_intel_f.Prelude.Int.{ℤ, pos}
use remote_debug_for_intel_f.Common.{zero_mem}
use remote_debug_for_intel_f.Mmio.{Mmio}
use remote_debug_for_intel_f.Os.{Os}
use remote_debug_for_intel_f.Sockets.{ReturnCode, ok, failure, init_err, other}
use remote_debug_for_intel_f.Server.{
  ServerBuffers, World, ClientConn, ServerLifespan, single_client, multiple_clients, reset_buffers,
  on_dev,
}
use remote_debug_for_intel_f.Server.Keeps.{
  Keeps, Keeps-elim, Keeps-pure, Keeps-set_conn, keeps_rules, some-none, returned,
}
use remote_debug_for_intel_f.Server.Framed.{IsFramed}
use remote_debug_for_intel_f.Server.Framed.Commands.{
  framed_rules, set_ctrl_rx-IsFramed, set_ctrl_tx-IsFramed,
}
use remote_debug_for_intel_f.Server.Framed.Rounds.{handle_client-IsFramed}
use remote_debug_for_intel_f.Server.Connect.{
  acknowledge_handle, connect_client_socket, query_mgmt_support, connect_ctrl, connect_sockets,
  start_driver, connect_client, close_one, close_client_conn,
}
use remote_debug_for_intel_f.Server.Loop.{
  serve_one, client_loop, server_main, alloc_tcpip_recv_send_buffer, free_tcpip_recv_send_buffer,
  set_buffers, set_terminate_ptr,
}

module _ {N X : Type 0} (start : ServerBuffers) (os : Os N) where
  acknowledge_handle-IsFramed :
      (fd : ℤ) (name : List ℕ) (handle : ℕ)
      → Keeps {N = N} {X = X} (IsFramed start) (acknowledge_handle os fd name handle)
  unfolding acknowledge_handle
  acknowledge_handle-IsFramed fd name handle = search framed_rules depth 60

  connect_client_socket-IsFramed :
      (handle : ℕ) (name : List ℕ) (nagle : Bool)
      → Keeps {N = N} {X = X} (IsFramed start) (connect_client_socket os handle name nagle)
  unfolding connect_client_socket
  connect_client_socket-IsFramed handle name nagle =
      search (framed_rules, acknowledge_handle-IsFramed) depth 40

  query_mgmt_support-IsFramed : Keeps {N = N} {X = X} (IsFramed start) (query_mgmt_support os)
  query_mgmt_support-IsFramed =
      Keeps-elim (λ w. w.conn.hw_callbacks.has_mgmt_support) _ (λ f. on_dev f) (Keeps-pure 0)
        (λ f. search keeps_rules)

  connect_ctrl-IsFramed :
      (handle : ℕ) → Keeps {N = N} {X = X} (IsFramed start) (connect_ctrl os handle)
  unfolding connect_ctrl
  connect_ctrl-IsFramed handle =
      search (framed_rules, acknowledge_handle-IsFramed, query_mgmt_support-IsFramed) depth 60

  connect_sockets-IsFramed :
      (handle : ℕ) (client : ClientConn)
      → Keeps {N = N} {X = X} (IsFramed start) (connect_sockets os handle client)
  unfolding connect_sockets
  connect_sockets-IsFramed handle client =
      search (framed_rules, connect_ctrl-IsFramed, connect_client_socket-IsFramed) depth 60

  start_driver-IsFramed :
      (mmio_handle : ℤ) → Keeps {N = N} {X = X} (IsFramed start) (start_driver os mmio_handle)
  start_driver-IsFramed mmio_handle =
      Keeps-elim (λ w. w.conn.hw_callbacks.init_driver) _ (λ f. on_dev (f mmio_handle))
        (Keeps-pure (pos 0)) (λ f. search keeps_rules)

  pub connect_client-IsFramed :
      (draws : ℕ) (mmio_handle : ℤ) (client : ClientConn)
      → Keeps {N = N} {X = X} (IsFramed start) (connect_client os draws mmio_handle client)
  unfolding connect_client
  connect_client-IsFramed draws mmio_handle client =
      search (framed_rules, connect_sockets-IsFramed, start_driver-IsFramed) depth 60

  pub close_client_conn-IsFramed :
      (client : ClientConn) → Keeps {N = N} {X = X} (IsFramed start) (close_client_conn os client)
  unfolding close_client_conn close_one
  close_client_conn-IsFramed client = search keeps_rules depth 90

  pub reset_buffers-IsFramed : Keeps {N = N} {X = X} (IsFramed start) reset_buffers
  unfolding reset_buffers
  reset_buffers-IsFramed = record {
    at = λ w a w' h e.
        elim (Option-cases (zero_mem w.conn.buff.ctrl_rx_buff w.conn.buff.ctrl_rx_buff_sz)) [
          | inl fails ↦ absurd (some-none (rw (fails, reset_buffers) at e))
          | inr (rx, first) ↦
              elim (Option-cases (zero_mem w.conn.buff.ctrl_tx_buff w.conn.buff.ctrl_tx_buff_sz)) [
                | inl fails ↦ absurd (some-none (rw (first, fails, reset_buffers) at e))
                | inr (tx, second) ↦
                    returned (IsFramed start)
                      (record w {
                        conn = record (w.conn) {
                          buff = record (w.conn.buff) { ctrl_rx_buff = rx; ctrl_tx_buff = tx };
                        };
                      })
                      w' (rw (first, second, reset_buffers) at e)
                      ((set_ctrl_tx-IsFramed start tx).at
                        (record w {
                          conn = record (w.conn) {
                            buff = record (w.conn.buff) { ctrl_rx_buff = rx };
                          };
                        })
                        tt _ ((set_ctrl_rx-IsFramed start rx).at w tt _ h refl) refl)
              ]
        ];
  }

module _ {N X : Type 0} (start : ServerBuffers) (os : Os N) (m : Mmio X) where
  serve_one-IsFramed :
      (rounds draws : ℕ) (mmio_handle : ℤ)
      → Keeps {N = N} {X = X} (IsFramed start) (serve_one os m rounds draws mmio_handle)
  unfolding serve_one
  serve_one-IsFramed rounds draws mmio_handle =
      search
        (
          keeps_rules, reset_buffers-IsFramed, connect_client-IsFramed, handle_client-IsFramed,
          close_client_conn-IsFramed,
        )
        depth 40

  -- What follows one client.
  module _ (fuel rounds draws : ℕ) (mmio_handle : ℤ)
      (more : Keeps {N = N} {X = X}
        (IsFramed start)
        (client_loop os m fuel rounds draws mmio_handle multiple_clients))
      (w w1 : World N X) (a : ReturnCode) (w' : World N X) (h : IsFramed start w1.conn.buff) where
    client_round :
        (lifespan : ServerLifespan) (rc : ReturnCode)
        → serve_one os m rounds draws mmio_handle w ≡ some (rc, w1)
        → client_loop os m (suc fuel) rounds draws mmio_handle lifespan w ≡ some (a, w')
        → IsFramed start w'.conn.buff
    unfolding client_loop
    client_round lifespan init_err here e =
        returned (IsFramed start) w1 w' (rw (here, client_loop) at e) h
    client_round single_client ok here e =
        returned (IsFramed start) w1 w' (rw (here, client_loop) at e) h
    client_round single_client failure here e =
        returned (IsFramed start) w1 w' (rw (here, client_loop) at e) h
    client_round single_client (other k) here e =
        returned (IsFramed start) w1 w' (rw (here, client_loop) at e) h
    client_round multiple_clients ok here e = more.at w1 a w' h (rw (here, client_loop) at e)
    client_round multiple_clients failure here e = more.at w1 a w' h (rw (here, client_loop) at e)
    client_round multiple_clients (other k) here e = more.at w1 a w' h (rw (here, client_loop) at e)

  client_loop-IsFramed :
      (fuel rounds draws : ℕ) (mmio_handle : ℤ) (lifespan : ServerLifespan)
      → Keeps {N = N} {X = X}
          (IsFramed start)
          (client_loop os m fuel rounds draws mmio_handle lifespan)
  unfolding client_loop
  client_loop-IsFramed zero rounds draws mmio_handle lifespan = record {
    at = λ w a w' h e. absurd (some-none e);
  }
  client_loop-IsFramed (suc fuel) rounds draws mmio_handle lifespan = record {
    at = λ w a w' h e. elim (Option-cases (serve_one os m rounds draws mmio_handle w)) [
      | inl fails ↦ absurd (some-none (rw (fails, client_loop) at e))
      | inr ((rc, w1), here) ↦
          client_round fuel rounds draws mmio_handle
            (client_loop-IsFramed fuel rounds draws mmio_handle multiple_clients) w w1 a w'
            ((serve_one-IsFramed rounds draws mmio_handle).at w rc w1 h here) lifespan rc here e
    ];
  }

  free_buffers-IsFramed : Keeps {N = N} {X = X} (IsFramed start) free_tcpip_recv_send_buffer
  unfolding free_tcpip_recv_send_buffer
  free_buffers-IsFramed = record {
    at = λ w a w' h e.
        returned (IsFramed start) (record w { recv_buff = none; send_buff = none }) w' e h;
  }

  set_buffers-IsFramed :
      (recv_buff send_buff : Option (List ℕ))
      → Keeps {N = N} {X = X} (IsFramed start) (set_buffers recv_buff send_buff)
  set_buffers-IsFramed recv_buff send_buff = record {
    at = λ w a w' h e.
        returned (IsFramed start) (record w { recv_buff = recv_buff; send_buff = send_buff }) w' e
          h;
  }

  set_terminate_ptr-IsFramed :
      (there : Bool) → Keeps {N = N} {X = X} (IsFramed start) (set_terminate_ptr there)
  set_terminate_ptr-IsFramed there = record {
    at = λ w a w' h e. returned (IsFramed start) (record w { terminate_ptr = there }) w' e h;
  }

  -- server_main as a whole: its loop over clients between the two changes of the globals.
  pub server_main-IsFramed :
      (fuel rounds draws h2t_t2h_mem_size : ℕ) (mmio_handle : ℤ) (lifespan : ServerLifespan)
      → Keeps {N = N} {X = X}
          (IsFramed start)
          (server_main os m fuel rounds draws h2t_t2h_mem_size mmio_handle lifespan)
  unfolding server_main alloc_tcpip_recv_send_buffer
  server_main-IsFramed fuel rounds draws size mmio_handle lifespan =
      search
        (
          keeps_rules, Keeps-set_conn, client_loop-IsFramed, free_buffers-IsFramed,
          set_buffers-IsFramed, set_terminate_ptr-IsFramed,
        )
        depth 60
