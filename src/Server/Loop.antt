-- ===== src/Server/Loop.antt =====
-- The event loop and the life of the server, streaming/src/intel_st_debug_if_server.c, with the two
-- buffers of streaming/src/intel_st_debug_if_sockets.c. A loop that waits for clients need not end: it
-- runs on fuel, and to be out of fuel is no result.
use remote_debug_for_intel_f.Prelude.{
  ℕ, zero, suc, ◌+◌, Bool, true, false, not, ◌&&◌, ◌||◌, List, [], ◌∷◌, Option, none, some, Run,
  ◌>>=◌, ◌>>◌, pure, get, total, u64, ◌==◌, if◌then◌else◌,
}
use remote_debug_for_intel_f.Prelude.Int.{ℤ, pos, negsuc}
use remote_debug_for_intel_f.CString.Decimal.{decimal}
use remote_debug_for_intel_f.Packet.{populate_guardband}
use remote_debug_for_intel_f.Mmio.{Mmio}
use remote_debug_for_intel_f.Os.{Os, FdSets}
use remote_debug_for_intel_f.Sockets.{
  initialize_sockets_library, ReturnCode, ok, failure, init_err, int_ltb, int_eq, max_of,
  set_linger_socket_option, close_socket_fd,
}
use remote_debug_for_intel_f.Server.{
  ClientConn, client_conn_default, ServerLifespan, single_client, multiple_clients, World, on_os,
  set_conn, set_buff, reset_buffers, invalid_socket,
}
use remote_debug_for_intel_f.Server.H2t.{is_ok, is_failure, process_h2t_data}
use remote_debug_for_intel_f.Server.T2h.{process_t2h_data}
use remote_debug_for_intel_f.Server.Mgmt.{process_mgmt_data, process_mgmt_rsp_data}
use remote_debug_for_intel_f.Server.Control.{process_control_message}
use remote_debug_for_intel_f.Server.Params.{string}
use remote_debug_for_intel_f.Server.Connect.{
  bind_server_socket, connect_client, close_client_conn, reject_client,
}

-- FD_ISSET
abbrev pub fd_isset : ℤ → List ℤ → Bool
fd_isset fd [] = false
fd_isset fd (x ∷ set) = int_eq fd x || fd_isset fd set

abbrev any_isset : (fds set : List ℤ) → Bool
any_isset [] set = false
any_isset (fd ∷ fds) set = fd_isset fd set || any_isset fds set

-- PACKET_HEADER_SIZE
abbrev packet_header_size : ℕ
packet_header_size = 64

abbrev is_some : {A : Type 0} → Option A → Bool
is_some none = false
is_some (some _) = true

abbrev pub all_fds : (server_fd : ℤ) → ClientConn → List ℤ
all_fds server_fd client =
    server_fd ∷ client.ctrl_fd ∷ client.mgmt_fd ∷ client.mgmt_rsp_fd ∷ client.h2t_data_fd
    ∷ client.t2h_data_fd ∷ []

-- The sets that `handle_client` asks `select` about.
abbrev pub requested : (server_fd : ℤ) → ClientConn → FdSets
requested server_fd client = record {
  read_fds = client.h2t_data_fd ∷ client.mgmt_fd ∷ server_fd ∷ client.ctrl_fd ∷ [];
  write_fds = client.t2h_data_fd ∷ client.mgmt_rsp_fd ∷ client.ctrl_fd ∷ [];
  except_fds =
      client.ctrl_fd ∷ client.mgmt_fd ∷ client.mgmt_rsp_fd ∷ client.h2t_data_fd ∷ client.t2h_data_fd
      ∷ [];
}

-- `max_fd + 1`
abbrev pub int_suc : ℤ → ℤ
int_suc (pos n) = pos (suc n)
int_suc (negsuc zero) = pos 0
int_suc (negsuc (suc n)) = negsuc n

module _ {N X : Type 0} where
  unfoldable pub free_tcpip_recv_send_buffer : Run (World N X) (Unit {0})
  free_tcpip_recv_send_buffer w = some (tt, record w { recv_buff = none; send_buff = none })

  abbrev pub set_buffers : (recv_buff send_buff : Option (List ℕ)) → Run (World N X) (Unit {0})
  set_buffers recv_buff send_buff w =
      some (tt, record w { recv_buff = recv_buff; send_buff = send_buff })

  abbrev pub set_terminate_ptr : Bool → Run (World N X) (Unit {0})
  set_terminate_ptr there w = some (tt, record w { terminate_ptr = there })

  -- A handler that is called when its socket is ready: is the loop to go on?
  abbrev pub when : Bool → Run (World N X) ReturnCode → Run (World N X) Bool
  when ready handler = if ready then (do rc ← handler; pure (not (is_failure rc))) else pure true

module _ {N X : Type 0} (os : Os N) (m : Mmio X) where
  unfoldable pub alloc_tcpip_recv_send_buffer : (sz : ℕ) → Run (World N X) ReturnCode
  alloc_tcpip_recv_send_buffer sz = do
    recv_buff ← on_os (total (os.malloc (u64 (sz + packet_header_size))))
    send_buff ← on_os (total (os.malloc (u64 (sz + packet_header_size))))
    set_buffers recv_buff send_buff
    if is_some recv_buff && is_some send_buff
        then pure ok
        else free_tcpip_recv_send_buffer >> pure failure

  -- The control socket: is the loop to go on?
  abbrev pub serve_ctrl : ClientConn → FdSets → Run (World N X) Bool
  serve_ctrl client ready =
      if fd_isset client.ctrl_fd ready.read_fds
      then (do
        (rc, disconnect_client) ← process_control_message os client
        pure (not (is_failure rc) && not disconnect_client))
      else pure true

  -- The two sockets that the hardware feeds, outside loopback mode.
  abbrev pub serve_responses : ClientConn → FdSets → Run (World N X) Bool
  serve_responses client ready = do
    w ← get
    if w.conn.loopback_mode then pure true else (do
      go ←
          when
            (fd_isset client.mgmt_rsp_fd ready.write_fds
              && is_some w.conn.hw_callbacks.acquire_mgmt_rsp_data)
            (process_mgmt_rsp_data os client)
      if go
          then when
              (fd_isset client.t2h_data_fd ready.write_fds
                && is_some w.conn.hw_callbacks.acquire_t2h_data)
              (process_t2h_data os m client)
          else pure false)

  -- The body of the loop behind `select`: is the loop to go on?
  unfoldable pub serve : ClientConn → FdSets → Run (World N X) Bool
  serve client ready = do
    w ← get
    if any_isset (all_fds w.conn.server_fd client) ready.except_fds then pure false else (do
      (if fd_isset w.conn.server_fd ready.read_fds then reject_client os else pure tt)
      ctrl ← serve_ctrl client ready
      if not ctrl then pure false else (do
        mgmt ← when (fd_isset client.mgmt_fd ready.read_fds) (process_mgmt_data os client)
        if not mgmt then pure false else (do
          h2t ← when (fd_isset client.h2t_data_fd ready.read_fds) (process_h2t_data os m client)
          if h2t then serve_responses client ready else pure false)))

  unfoldable pub handle_client : (fuel : ℕ) → ClientConn → Run (World N X) (Unit {0})
  handle_client zero client w = none
  handle_client (suc fuel) client w =
      let fd = w.conn.server_fd in
      let (rc, ready, s) =
        os.select (int_suc (max_of (all_fds fd client))) (requested fd client) 1 w.os in
      let w' = record w { os = s } in
      elim (int_ltb rc (pos 0)) [
        | true ↦ some (tt, w')
        | false ↦ elim (serve client ready w') [
          | none ↦ none
          | some (false, w'') ↦ some (tt, w'')
          | some (true, w'') ↦ handle_client fuel client w''
        ]
      ]

  -- One round of the main loop: the return code.
  unfoldable pub serve_one : (rounds draws : ℕ) (mmio_handle : ℤ) → Run (World N X) ReturnCode
  serve_one rounds draws mmio_handle = do
    reset_buffers
    (rc, client) ← connect_client os draws mmio_handle client_conn_default
    (if is_ok rc then handle_client rounds client else pure tt)
    _ ← close_client_conn os client
    pure rc

  -- The `do` loop: it ends on INIT_ERR, or after one client.
  unfoldable pub client_loop :
      (fuel rounds draws : ℕ) (mmio_handle : ℤ) → ServerLifespan → Run (World N X) ReturnCode
  unfolding serve_one
  client_loop zero rounds draws mmio_handle lifespan w = none
  client_loop (suc fuel) rounds draws mmio_handle lifespan w =
      elim (serve_one rounds draws mmio_handle w) [
        | none ↦ none
        | some (init_err, w') ↦ some (init_err, w')
        | some (rc, w') ↦ elim lifespan [
          | single_client ↦ some (rc, w')
          | multiple_clients ↦ client_loop fuel rounds draws mmio_handle multiple_clients w'
        ]
      ]

  -- Closing the listening socket, which stays recorded when that fails.
  abbrev pub close_server : Run (World N X) (Unit {0})
  close_server = do
    w ← get
    _ ← on_os (set_linger_socket_option os w.conn.server_fd 1 0)
    rc ← on_os (close_socket_fd os w.conn.server_fd)
    if int_eq rc (pos 0) then set_conn (λ c. record c { server_fd = invalid_socket }) else pure tt

  unfoldable pub server_main :
      (fuel rounds draws h2t_t2h_mem_size : ℕ) (mmio_handle : ℤ)
      → ServerLifespan
      → Run (World N X) ReturnCode
  server_main fuel rounds draws h2t_t2h_mem_size mmio_handle lifespan = do
    set_terminate_ptr true
    allocated ← alloc_tcpip_recv_send_buffer h2t_t2h_mem_size
    if is_failure allocated
        then pure allocated
        else (do rc ← client_loop fuel rounds draws mmio_handle lifespan; close_server; pure rc)

  -- `server_fd` is read through the pointer, whether or not it is set.
  unfoldable pub server_terminate : Run (World N X) (Unit {0})
  server_terminate = do
    free_tcpip_recv_send_buffer
    w ← get
    if not w.terminate_ptr then (λ _. none) else (do
      (if int_eq w.conn.server_fd invalid_socket then pure tt else close_server)
      set_terminate_ptr false)

  -- The port that the system chose, where it says so.
  abbrev pub read_port : (fd : ℤ) → Run (World N X) (Unit {0})
  read_port fd w =
      let (rc, port, s) = os.getsockname fd w.os in
      let w' = record w { os = s } in
      if int_ltb rc (pos 0)
      then some (tt, w')
      else some (tt, record w' { conn = record (w'.conn) { server_port = port } })

  -- The socket, its port, and the file that names the port.
  unfoldable pub listen_on : (port : ℕ) (port_filename : List ℕ) → Run (World N X) ReturnCode
  listen_on port port_filename = do
    set_conn (λ c. record c { server_port = port })
    bound ← bind_server_socket os
    if not (is_ok bound) then pure failure else (do
      w ← get
      (if port == 0 then read_port w.conn.server_fd else pure tt)
      w ← get
      _ ← on_os (total (os.save_file port_filename (decimal w.conn.server_port)))
      pure ok)

  -- `port_filename` is not NULL. The result of `fopen` only goes to the console.
  unfoldable pub initialize_server :
      (port : ℕ) (port_filename : List ℕ) → Run (World N X) ReturnCode
  initialize_server port port_filename =
      if is_failure initialize_sockets_library then pure failure else (do
        w ← get
        (_, mgmt_rsp) ← string (populate_guardband 0 w.conn.buff.mgmt_rsp_header_buff)
        (_, t2h) ← string (populate_guardband 0 w.conn.buff.t2h_header_buff)
        set_buff (λ b. record b { mgmt_rsp_header_buff = mgmt_rsp; t2h_header_buff = t2h })
        listen_on port port_filename)
