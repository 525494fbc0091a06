-- ===== src/Server/Framed/Commands.antt =====
-- The commands of streaming/src/intel_st_debug_if_server.c and the framed buffers.
use remote_debug_for_intel_f.Prelude.{ℕ, Bool, List, Option, none, some, Run}
use remote_debug_for_intel_f.Prelude.Int.{ℤ}
use remote_debug_for_intel_f.CString.{strstr}
use remote_debug_for_intel_f.Os.{Os}
use remote_debug_for_intel_f.Server.{ServerBuffers, World, ClientConn, set_buff}
use remote_debug_for_intel_f.Server.Keeps.{
  Keeps, Keeps-from, keeps_rules, Keeps-elim, Keeps-bind, Keeps-pure, Keeps-fault, Keeps-string,
  Keeps-set_buff, Keeps-set_conn,
}
use remote_debug_for_intel_f.Server.Message
use remote_debug_for_intel_f.Server.Params.{
  get_parameter, set_parameter, get_driver_parameter, set_driver_parameter, set_nagle, set_loopback,
  ask_driver, tell_driver, set_found,
}
use remote_debug_for_intel_f.Server.Control.{process_control_message, run_command}
use remote_debug_for_intel_f.Server.Connect.{reject_client}
use remote_debug_for_intel_f.Server.Framed.{IsFramed}

module _ {N X : Type 0} (start : ServerBuffers) where
  pub reject_client-IsFramed :
      (os : Os N) → Keeps {N = N} {X = X} (IsFramed start) (reject_client os)
  unfolding reject_client
  reject_client-IsFramed os = search keeps_rules depth 30

  pub set_ctrl_rx-IsFramed :
      (rx : List ℕ)
      → Keeps {N = N} {X = X} (IsFramed start) (set_buff (λ b. record b { ctrl_rx_buff = rx }))
  set_ctrl_rx-IsFramed rx =
      Keeps-set_buff (λ b. record b { ctrl_rx_buff = rx })
        (λ b h. record {
          t2h = h.t2h;
          mgmt_rsp = h.mgmt_rsp;
          h2t = h.h2t;
          mgmt = h.mgmt;
          wrapping = h.wrapping;
          h2t_rx_buff = h.h2t_rx_buff;
          h2t_rx_buff_sz = h.h2t_rx_buff_sz;
          t2h_tx_buff = h.t2h_tx_buff;
          t2h_tx_buff_sz = h.t2h_tx_buff_sz;
        })

  pub set_ctrl_tx-IsFramed :
      (tx : List ℕ)
      → Keeps {N = N} {X = X} (IsFramed start) (set_buff (λ b. record b { ctrl_tx_buff = tx }))
  set_ctrl_tx-IsFramed tx =
      Keeps-set_buff (λ b. record b { ctrl_tx_buff = tx })
        (λ b h. record {
          t2h = h.t2h;
          mgmt_rsp = h.mgmt_rsp;
          h2t = h.h2t;
          mgmt = h.mgmt;
          wrapping = h.wrapping;
          h2t_rx_buff = h.h2t_rx_buff;
          h2t_rx_buff_sz = h.h2t_rx_buff_sz;
          t2h_tx_buff = h.t2h_tx_buff;
          t2h_tx_buff_sz = h.t2h_tx_buff_sz;
        })

  pub ruleset framed_rules =
      (keeps_rules, set_ctrl_rx-IsFramed, set_ctrl_tx-IsFramed, Keeps-set_conn)

  get_parameter-IsFramed :
      (cmd : List ℕ) → Keeps {N = N} {X = X} (IsFramed start) (get_parameter cmd)
  unfolding get_parameter
  get_parameter-IsFramed cmd = search framed_rules depth 60

  set_nagle-IsFramed :
      (os : Os N) (fd : ℤ) (value : Option Bool) (keep : Bool → Run (World N X) (Unit {0}))
      → ((b : Bool) → Keeps (IsFramed start) (keep b))
      → Keeps (IsFramed start) (set_nagle os fd value keep)
  set_nagle-IsFramed os fd none keep h = search framed_rules depth 60
  set_nagle-IsFramed os fd (some b) keep h = search framed_rules depth 60

  set_loopback-IsFramed :
      (os : Os N) (value : Option Bool)
      → Keeps {N = N} {X = X} (IsFramed start) (set_loopback os value)
  set_loopback-IsFramed os none = search framed_rules depth 60
  set_loopback-IsFramed os (some b) = search framed_rules depth 60

  get_driver_parameter-IsFramed :
      (cmd : List ℕ) → Keeps {N = N} {X = X} (IsFramed start) (get_driver_parameter cmd)
  unfolding get_driver_parameter ask_driver
  get_driver_parameter-IsFramed cmd =
      Keeps-elim (λ w. w.conn.hw_callbacks.get_param) _ (λ g. ask_driver g cmd) (Keeps-pure _)
        (λ g. search framed_rules depth 60)

  set_driver_parameter-IsFramed :
      (cmd : List ℕ) → Keeps {N = N} {X = X} (IsFramed start) (set_driver_parameter cmd)
  unfolding set_driver_parameter tell_driver
  set_driver_parameter-IsFramed cmd =
      Keeps-elim (λ w. w.conn.hw_callbacks.set_param) _ _ (Keeps-pure _)
        (λ g.
          Keeps-elim (λ w. strstr cmd Message.set_driver_param_cmd) _ _ Keeps-fault
            (λ found.
              Keeps-elim (λ w. found) _ (tell_driver g) (Keeps-pure _)
                (λ f. search framed_rules depth 60)))

  set_parameter-IsFramed :
      (os : Os N) (cmd : List ℕ) (client : ClientConn)
      → Keeps {N = N} {X = X} (IsFramed start) (set_parameter os cmd client)
  unfolding set_parameter set_found
  set_parameter-IsFramed os cmd client =
      Keeps-elim (λ w. strstr cmd Message.set_param_cmd) _ _ Keeps-fault
        (λ found.
          Keeps-elim (λ w. found) _ (λ f. set_found os f client) (Keeps-pure _)
            (λ f. search (framed_rules, set_nagle-IsFramed, set_loopback-IsFramed) depth 60))

  run_command-IsFramed :
      (os : Os N) (client : ClientConn) (cmd : List ℕ)
      → Keeps {N = N} {X = X} (IsFramed start) (run_command os client cmd)
  unfolding run_command
  run_command-IsFramed os client cmd =
      search
        (
          framed_rules, get_parameter-IsFramed, set_parameter-IsFramed,
          get_driver_parameter-IsFramed, set_driver_parameter-IsFramed,
        )
        depth 90

  pub process_control_message-IsFramed :
      (os : Os N) (client : ClientConn)
      → Keeps {N = N} {X = X} (IsFramed start) (process_control_message os client)
  unfolding process_control_message
  process_control_message-IsFramed os client = search (framed_rules, run_command-IsFramed) depth 30
