-- ===== src/Server/Connect.antt =====
-- Setting connections up and closing them, streaming/src/intel_st_debug_if_server.c. What the messages
-- on the console say is left out.
pub mod Gives
pub mod Order
pub mod Handle
pub mod Names
mod Tests
use remote_debug_for_intel_f.Prelude.{
  ℕ, ◌+◌, Bool, false, not, ◌||◌, List, none, some, Run, ◌>>=◌, ◌>>◌, pure, get, total,
  if◌then◌else◌,
}
use remote_debug_for_intel_f.Prelude.Int.{ℤ, pos}
use remote_debug_for_intel_f.CString.{strncmp_eq, strnlen}
use remote_debug_for_intel_f.Common.{generate_expected_handle_message, get_random_id}
use remote_debug_for_intel_f.Os.{Os, reuse_addr}
use remote_debug_for_intel_f.Sockets.{
  ReturnCode, ok, failure, init_err, int_ltb, int_eq, socket_send_all,
  socket_recv_until_null_reached, set_boolean_socket_option, set_tcp_no_delay,
  set_linger_socket_option, close_socket_fd,
}
use remote_debug_for_intel_f.Server.{
  ClientConn, World, on_os, on_dev, set_conn, set_buff, invalid_socket, server_pkt_stats_default,
}
use remote_debug_for_intel_f.Server.Message
use remote_debug_for_intel_f.Server.H2t.{is_ok, is_failure}
use remote_debug_for_intel_f.Server.Params.{string}

abbrev pub max_handle_rsp : ℕ
max_handle_rsp = 64

-- MSG_DONTWAIT
abbrev msg_dontwait : ℕ
msg_dontwait = 0x40

abbrev pub valid : ℤ → Bool
valid fd = not (int_eq fd invalid_socket)

module _ {N X : Type 0} (os : Os N) where
  -- The steps behind `socket`, each only while there has been no error: is there still none?
  unfoldable pub configure_server_socket : (fd : ℤ) (port : ℕ) → Run (World N X) Bool
  configure_server_socket fd port = do
    reused ← on_os (set_boolean_socket_option os fd (reuse_addr 1))
    if int_ltb reused (pos 0) then pure false else (do
      bound ← on_os (total (os.bind fd port))
      if int_ltb bound (pos 0) then pure false else (do
        listening ← on_os (total (os.listen fd 8))
        pure (not (int_ltb listening (pos 0)))))

  unfoldable pub bind_server_socket : Run (World N X) ReturnCode
  unfolding configure_server_socket
  bind_server_socket = do
    fd ← on_os (total os.socket)
    set_conn (λ c. record c { server_fd = fd })
    w ← get
    good ← (if valid fd then configure_server_socket fd w.conn.server_port else pure false)
    if good
        then pure ok
        else (if valid fd
            then (do
              _ ← on_os (close_socket_fd os fd)
              set_conn (λ c. record c { server_fd = invalid_socket })
              pure failure)
            else pure failure)

  -- The client's handle message against the one that is expected, and READY or NOT_READY for it.
  -- `connect_client` and `connect_client_socket` hold the same text, and the receiver's own failure is
  -- FAILURE.
  unfoldable pub acknowledge_handle :
      (fd : ℤ) (sock_name : List ℕ) (handle : ℕ) → Run (World N X) ReturnCode
  acknowledge_handle fd sock_name handle = do
    w ← get
    (rc, _, rx) ←
        on_os (socket_recv_until_null_reached os fd w.conn.buff.ctrl_rx_buff max_handle_rsp 0)
    set_buff (λ b. record b { ctrl_rx_buff = rx })
    if is_ok rc
        then (do
          let b = w.conn.buff
          tx ←
              string
                (generate_expected_handle_message b.ctrl_tx_buff b.ctrl_tx_buff_sz sock_name handle)
          set_buff (λ b. record b { ctrl_tx_buff = tx })
          expected ← string (strncmp_eq rx tx max_handle_rsp)
          if expected
              then (do (sent, _) ← on_os (socket_send_all os fd Message.ready_msg 6 0); pure sent)
              else (do _ ← on_os (socket_send_all os fd Message.not_ready_msg 10 0); pure failure))
        else pure failure

  -- The result and `*client_fd`.
  unfoldable pub connect_client_socket :
      (handle_id : ℕ) (sock_name : List ℕ) (use_nagle : Bool) → Run (World N X) (ReturnCode × ℤ)
  connect_client_socket handle_id sock_name use_nagle = do
    w ← get
    fd ← on_os (total (os.accept w.conn.server_fd))
    if not (valid fd) then pure (failure, fd) else (do
      no_delay ← on_os (set_tcp_no_delay os fd (if use_nagle then 0 else 1))
      if int_eq no_delay (pos 0)
          then (do rc ← acknowledge_handle fd sock_name handle_id; pure (rc, fd))
          else pure (failure, fd))

  abbrev pub query_mgmt_support : Run (World N X) ℕ
  query_mgmt_support w = elim w.conn.hw_callbacks.has_mgmt_support [
    | none ↦ some (0, w)
    | some has_mgmt_support ↦ on_dev has_mgmt_support w
  ]

  -- The control socket: accepted, welcomed, and its handle acknowledged.
  unfoldable pub connect_ctrl : (handle : ℕ) → Run (World N X) (ReturnCode × ℤ)
  connect_ctrl handle = do
    w ← get
    fd ← on_os (total (os.accept w.conn.server_fd))
    if not (valid fd) then pure (failure, fd) else (do
      mgmt_support ← query_mgmt_support
      let b = w.conn.buff
      tx ← string (
          Message.generate_server_welcome_message b.ctrl_tx_buff b.ctrl_tx_buff_sz mgmt_support b
            handle)
      set_buff (λ b. record b { ctrl_tx_buff = tx })
      n ← string (strnlen tx b.ctrl_tx_buff_sz)
      (sent, _) ← on_os (socket_send_all os fd tx (n + 1) 0)
      if is_failure sent
          then pure (failure, fd)
          else (do rc ← acknowledge_handle fd Message.control_sock_name handle; pure (rc, fd)))

  -- One of the four other sockets, if all went well so far; else its field of the client stays.
  abbrev pub connect_next :
      (rc : ReturnCode) (old_fd : ℤ) (handle : ℕ) (sock_name : List ℕ) (use_nagle : Bool)
      → Run (World N X) (ReturnCode × ℤ)
  connect_next rc old_fd handle sock_name use_nagle =
      if is_ok rc then connect_client_socket handle sock_name use_nagle else pure (rc, old_fd)

  -- The five sockets in turn. A socket that is not asked for leaves the client's field as it was.
  unfoldable pub connect_sockets :
      (handle : ℕ) → ClientConn → Run (World N X) (ReturnCode × ClientConn)
  unfolding connect_ctrl
  connect_sockets handle client = do
    (rc0, ctrl_fd) ← connect_ctrl handle
    (rc1, mgmt_fd) ← connect_next rc0 client.mgmt_fd handle Message.management_sock_name false
    w ← get
    (rc2, mgmt_rsp_fd) ←
        connect_next rc1 client.mgmt_rsp_fd handle Message.management_rsp_sock_name
          w.conn.mgmt_rsp_nagle
    (rc3, h2t_data_fd) ← connect_next rc2 client.h2t_data_fd handle Message.h2t_sock_name false
    (rc4, t2h_data_fd) ←
        connect_next rc3 client.t2h_data_fd handle Message.t2h_sock_name w.conn.t2h_nagle
    pure (
      rc4,
      record {
        ctrl_fd = ctrl_fd;
        mgmt_fd = mgmt_fd;
        mgmt_rsp_fd = mgmt_rsp_fd;
        h2t_data_fd = h2t_data_fd;
        t2h_data_fd = t2h_data_fd;
      },
    )

  -- 0 where there is no driver to initialise.
  abbrev pub start_driver : (mmio_handle : ℤ) → Run (World N X) ℤ
  start_driver mmio_handle w = elim w.conn.hw_callbacks.init_driver [
    | none ↦ some (pos 0, w)
    | some init_driver ↦ on_dev (init_driver mmio_handle) w
  ]

  -- `draws` bounds the draws of the random identifier. The client comes out beside the result.
  unfoldable pub connect_client :
      (draws : ℕ) (mmio_handle : ℤ) → ClientConn → Run (World N X) (ReturnCode × ClientConn)
  unfolding connect_sockets
  connect_client draws mmio_handle client_conn = do
    handle ← on_os (get_random_id os draws)
    set_conn (λ c. record c { pkt_stats = server_pkt_stats_default })
    init_driver_rc ← start_driver mmio_handle
    if not (int_eq init_driver_rc (pos 0)) then pure (init_err, client_conn) else (do
      (result, client) ← connect_sockets handle client_conn
      if is_ok result
          then (do
            (sent, _) ← on_os (socket_send_all os client.ctrl_fd Message.ready_msg 6 0)
            pure ((if is_ok sent then ok else failure), client))
          else (if valid client.ctrl_fd
              then (do
                _ ← on_os (total (os.send client.ctrl_fd Message.not_ready_msg 0))
                pure (failure, client))
              else pure (failure, client)))

  -- Is there an error in closing one socket?
  unfoldable pub close_one : (fd : ℤ) → Run (World N X) Bool
  close_one fd =
      if valid fd
      then (do
        _ ← on_os (set_linger_socket_option os fd 1 0)
        rc ← on_os (close_socket_fd os fd)
        pure (not (int_eq rc (pos 0))))
      else pure false

  unfoldable pub close_client_conn : ClientConn → Run (World N X) ReturnCode
  unfolding close_one
  close_client_conn client = do
    a ← close_one client.ctrl_fd
    b ← close_one client.mgmt_fd
    c ← close_one client.mgmt_rsp_fd
    d ← close_one client.h2t_data_fd
    e ← close_one client.t2h_data_fd
    pure (if a || (b || (c || (d || e))) then failure else ok)

  unfoldable pub reject_client : Run (World N X) (Unit {0})
  reject_client = do
    w ← get
    fd ← on_os (total (os.accept w.conn.server_fd))
    if valid fd
        then (do
          _ ← on_os (total (os.send fd Message.reject_msg msg_dontwait))
          _ ← on_os (set_linger_socket_option os fd 1 0)
          _ ← on_os (close_socket_fd os fd)
          pure tt)
        else pure tt
