-- ===== src/Server/Control.antt =====
-- process_control_message of streaming/src/intel_st_debug_if_server.c.
use remote_debug_for_intel_f.Prelude.{
  ℕ, ◌+◌, Bool, true, false, List, Run, ◌>>=◌, ◌>>◌, pure, get, if◌then◌else◌,
}
use remote_debug_for_intel_f.Prelude.Int.{ℤ}
use remote_debug_for_intel_f.CString.{strncmp_eq, strnlen}
use remote_debug_for_intel_f.Os.{Os}
use remote_debug_for_intel_f.Sockets.{
  ReturnCode, ok, failure, socket_send_all, socket_recv_until_null_reached, wait_for_read_event,
}
use remote_debug_for_intel_f.Server.{ClientConn, World, on_os, set_buff}
use remote_debug_for_intel_f.Server.Message
use remote_debug_for_intel_f.Server.H2t.{is_ok}
use remote_debug_for_intel_f.Server.Params.{
  string, at_head, get_parameter, set_parameter, get_driver_parameter, set_driver_parameter,
}

module _ {N X : Type 0} (os : Os N) where
  -- A fixed answer of `len` bytes.
  abbrev answer : (fd : ℤ) (text : List ℕ) (len : ℕ) → Run (World N X) ReturnCode
  answer fd text len = do (rc, _) ← on_os (socket_send_all os fd text len 0); pure rc

  -- A string, with its NUL, of which at most `max` characters go out.
  abbrev answer_string : (fd : ℤ) (max : ℕ) (text : List ℕ) → Run (World N X) ReturnCode
  answer_string fd max text = do n ← string (strnlen text max); answer fd text (n + 1)

  -- The chain of commands: the return code, and `*disconnect_client`.
  unfoldable pub run_command : ClientConn → (cmd : List ℕ) → Run (World N X) (ReturnCode × Bool)
  run_command client cmd = do
    let fd = client.ctrl_fd
    let stay : Run (World N X) ReturnCode → Run (World N X) (ReturnCode × Bool) =
        λ f. f >>= λ rc. pure (rc, false)
    is_get ← string (at_head cmd Message.get_param_cmd)
    if is_get then stay (get_parameter cmd >>= answer_string fd 256) else (do
      is_ping ← string (strncmp_eq cmd Message.ping_cmd 5)
      if is_ping then stay (answer fd Message.ping_cmd_rsp 5) else (do
        is_disconnect ← string (strncmp_eq cmd Message.disconnect_cmd 11)
        if is_disconnect
            then (do
              _ ← answer fd Message.disconnect_cmd_rsp 15
              on_os (wait_for_read_event os fd 10)
              pure (ok, true))
            else (do
              is_set ← string (at_head cmd Message.set_param_cmd)
              if is_set then stay (set_parameter os cmd client >>= answer_string fd 128) else (do
                is_set_driver ← string (at_head cmd Message.set_driver_param_cmd)
                if is_set_driver
                    then stay (set_driver_parameter cmd >>= answer_string fd 256)
                    else (do
                      is_get_driver ← string (at_head cmd Message.get_driver_param_cmd)
                      if is_get_driver
                          then stay (get_driver_parameter cmd >>= answer_string fd 256)
                          else stay (answer fd Message.unrecognized_cmd_rsp 21))))))

  unfoldable pub process_control_message : ClientConn → Run (World N X) (ReturnCode × Bool)
  process_control_message client = do
    w ← get
    (rc, _, rx) ← on_os (
        socket_recv_until_null_reached os client.ctrl_fd w.conn.buff.ctrl_rx_buff
          w.conn.buff.ctrl_rx_buff_sz 0)
    set_buff (λ b. record b { ctrl_rx_buff = rx })
    if is_ok rc then run_command client rx else pure (failure, false)
