-- ===== src/Server/Terminate.antt =====
-- server_terminate of streaming/src/intel_st_debug_if_server.c with a connection to end.
use remote_debug_for_intel_f.Prelude.{
  true, false, none, some, ◌≡◌, arith, Option-cases, ◌≢◌, inl, inr,
}
use remote_debug_for_intel_f.Mmio.{Mmio}
use remote_debug_for_intel_f.Os.{Os}
use remote_debug_for_intel_f.Sockets.{set_linger_socket_option, close_socket_fd}
use remote_debug_for_intel_f.Server.{World}
use remote_debug_for_intel_f.Server.Loop.{server_terminate, free_tcpip_recv_send_buffer}

-- The buffers are freed, the pointer is reset.
unfoldable pub Terminated : {N X : Type 0} → World N X → Type 0
Terminated w = (w.recv_buff ≡ none) × (w.send_buff ≡ none) × (w.terminate_ptr ≡ false)

module _ {N X : Type 0} (os : Os N) (m : Mmio X) (w : World N X) where
  server_terminate-returns : w.terminate_ptr ≡ true → server_terminate os m w ≢ none
  unfolding server_terminate free_tcpip_recv_send_buffer set_linger_socket_option close_socket_fd
  server_terminate-returns h e = ground arith

  server_terminate-result :
      (u : Unit {0}) (w' : World N X) → server_terminate os m w ≡ some (u, w') → Terminated w'
  unfolding server_terminate free_tcpip_recv_send_buffer set_linger_socket_option close_socket_fd
      Terminated
  server_terminate-result u w' e = ground arith

  pub server_terminate-Terminated :
      w.terminate_ptr ≡ true
      → (w' : World N X) × (server_terminate os m w ≡ some (tt, w')) × Terminated w'
  server_terminate-Terminated h = elim (Option-cases (server_terminate os m w)) [
    | inl e ↦ absurd (server_terminate-returns h e)
    | inr ((u, w'), e) ↦ (w', e, server_terminate-result u w' e)
  ]
