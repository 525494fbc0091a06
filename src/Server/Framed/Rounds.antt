-- ===== src/Server/Framed/Rounds.antt =====
-- The event loop of streaming/src/intel_st_debug_if_server.c and the framed buffers.
use remote_debug_for_intel_f.Prelude.{ℕ, zero, suc, inl, inr, true, false, Option-cases, Bool-cases}
use remote_debug_for_intel_f.Prelude.Int.{pos}
use remote_debug_for_intel_f.Mmio.{Mmio}
use remote_debug_for_intel_f.Os.{Os, FdSets}
use remote_debug_for_intel_f.Sockets.{int_ltb, max_of}
use remote_debug_for_intel_f.Server.{ServerBuffers, World, ClientConn}
use remote_debug_for_intel_f.Server.Keeps.{Keeps, keeps_rules, some-none, returned}
use remote_debug_for_intel_f.Server.Framed.{IsFramed}
use remote_debug_for_intel_f.Server.Framed.Commands.{
  reject_client-IsFramed, process_control_message-IsFramed,
}
use remote_debug_for_intel_f.Server.Framed.Data.{process_h2t_data-IsFramed}
use remote_debug_for_intel_f.Server.Framed.Frames.{process_t2h_data-IsFramed}
use remote_debug_for_intel_f.Server.Framed.Mgmt.{
  process_mgmt_data-IsFramed, process_mgmt_rsp_data-IsFramed,
}
use remote_debug_for_intel_f.Server.Loop.{
  serve_ctrl, serve_responses, serve, handle_client, int_suc, all_fds, requested,
}

module _ {N X : Type 0} (start : ServerBuffers) (os : Os N) (m : Mmio X) (client : ClientConn) where
  serve_ctrl-IsFramed :
      (ready : FdSets) → Keeps {N = N} {X = X} (IsFramed start) (serve_ctrl os m client ready)
  serve_ctrl-IsFramed ready = search (keeps_rules, process_control_message-IsFramed) depth 30

  serve_responses-IsFramed :
      (ready : FdSets) → Keeps {N = N} {X = X} (IsFramed start) (serve_responses os m client ready)
  serve_responses-IsFramed ready =
      search (keeps_rules, process_mgmt_rsp_data-IsFramed, process_t2h_data-IsFramed) depth 30

  serve-IsFramed :
      (ready : FdSets) → Keeps {N = N} {X = X} (IsFramed start) (serve os m client ready)
  unfolding serve
  serve-IsFramed ready =
      search
        (
          keeps_rules, reject_client-IsFramed, serve_ctrl-IsFramed, process_mgmt_data-IsFramed,
          process_h2t_data-IsFramed, serve_responses-IsFramed,
        )
        depth 40

  -- One client, from the first `select` to the last.
  pub handle_client-IsFramed :
      (fuel : ℕ) → Keeps {N = N} {X = X} (IsFramed start) (handle_client os m fuel client)
  unfolding handle_client
  handle_client-IsFramed zero = record { at = λ w a w' h e. absurd (some-none e) }
  handle_client-IsFramed (suc fuel) = record {
    at = λ w a w' h e.
        let fd = w.conn.server_fd in
        let answer =
          os.select (int_suc (max_of (all_fds fd client))) (requested fd client) 1 w.os in
        let w1 : World N X = record w { os = answer.2 } in
        elim (Bool-cases (int_ltb (answer.0) (pos 0))) [
          | inl error ↦ returned (IsFramed start) w1 w' (rw (error, handle_client) at e) h
          | inr fine ↦ elim (Option-cases (serve os m client (answer.1) w1)) [
            | inl fails ↦ absurd (some-none (rw (fine, fails, handle_client) at e))
            | inr ((false, w2), here) ↦
                returned (IsFramed start) w2 w' (rw (fine, here, handle_client) at e)
                  ((serve-IsFramed (answer.1)).at w1 false w2 h here)
            | inr ((true, w2), here) ↦
                (handle_client-IsFramed fuel).at w2 a w'
                  ((serve-IsFramed (answer.1)).at w1 true w2 h here)
                  (rw (fine, here, handle_client) at e)
          ]
        ];
  }
