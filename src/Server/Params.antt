-- ===== src/Server/Params.antt =====
-- The parameter commands of streaming/src/intel_st_debug_if_server.c. A `char *` result is the bytes
-- that it points to; a command is the bytes from the start of its buffer to the end of the buffer.
pub mod Loopback
use remote_debug_for_intel_f.Prelude.{
  ℕ, ◌-◌, Bool, false, List, ◌++◌, Option, none, some, Run, ◌>>=◌, ◌>>◌, pure, get, ◌==◌, ltb,
  if◌then◌else◌, length, take, replicate,
}
use remote_debug_for_intel_f.Prelude.Int.{ℤ, pos}
use remote_debug_for_intel_f.CString.{codes, literal, strncmp_eq, strstr, strnlen, advance, deref}
use remote_debug_for_intel_f.CString.Decimal.{decimal, snprintf}
use remote_debug_for_intel_f.Os.{Os}
use remote_debug_for_intel_f.Driver.{Device}
use remote_debug_for_intel_f.Sockets.{int_ltb, int_eq, set_tcp_no_delay}
use remote_debug_for_intel_f.Server.{ClientConn, World, on_os, on_dev, set_conn, set_buff}
use remote_debug_for_intel_f.Server.Message

-- A function of <string.h> inside the server.
abbrev pub string : {A S : Type 0} → Option A → Run S A
string r s = elim r [ none ↦ none | some a ↦ some (a, s) ]

-- strstr (s, needle) == s
abbrev pub at_head : (s needle : List ℕ) → Option Bool
at_head s needle = elim (strstr s needle) [
  | none ↦ none
  | some none ↦ some false
  | some (some p) ↦ some (length p == length s)
]

-- strstr (s, needle) + n, which is undefined on NULL.
abbrev pub behind : (s needle : List ℕ) (n : ℕ) → Option (List ℕ)
behind s needle n = elim (strstr s needle) [
  | none ↦ none
  | some none ↦ none
  | some (some p) ↦ advance p n
]

-- `*param_value == '1'`, where the value is not empty; `none` where it is.
abbrev pub flag_value : (param_name : List ℕ) (n : ℕ) → Option (Option Bool)
flag_value param_name n = elim (advance param_name n) [
  | none ↦ none
  | some param_value ↦ elim (strnlen param_value 1) [
    | none ↦ none
    | some k ↦
        if k == 1
        then elim (deref param_value) [ none ↦ none | some c ↦ some (some (c == b'1')) ]
        else some none
  ]
]

abbrev bit : Bool → ℕ
bit b = if b then 1 else 0

-- `param_name_buff`: 33 bytes, all 0 but for at most 32 characters of the name.
abbrev name_buff : (param_name : List ℕ) (param_name_len : ℕ) → List ℕ
name_buff param_name param_name_len =
    let n = if ltb param_name_len 32 then param_name_len else 32 in
    take n param_name ++ replicate (33 - n) 0

module _ {N X : Type 0} where
  -- The number is printed into `ctrl_tx_buff`, and that buffer is the answer.
  abbrev printed : ℕ → Run (World N X) (List ℕ)
  printed n = do
    w ← get
    tx ← string (snprintf w.conn.buff.ctrl_tx_buff w.conn.buff.ctrl_tx_buff_sz (decimal n))
    set_buff (λ b. record b { ctrl_tx_buff = tx })
    pure tx

  unfoldable pub get_parameter : (cmd : List ℕ) → Run (World N X) (List ℕ)
  get_parameter cmd = do
    w ← get
    param_name ← string (behind cmd Message.get_param_cmd 10)
    loopback ← string (strncmp_eq param_name Message.server_loopback_mode_param 16)
    if loopback then pure (if w.conn.loopback_mode then literal "1" else literal "0") else (do
      h2t_size ← string (strncmp_eq param_name Message.h2t_rx_buffer_size_param 15)
      if h2t_size then printed w.conn.buff.h2t_rx_buff_sz else (do
        mgmt_size ← string (strncmp_eq param_name Message.mgmt_rx_buffer_size_param 16)
        if mgmt_size then printed w.conn.buff.mgmt_rx_buff_sz else (do
          ctrl_size ← string (strncmp_eq param_name Message.ctrl_rx_buffer_size_param 16)
          if ctrl_size then printed w.conn.buff.ctrl_rx_buff_sz else (do
            t2h_nagle ← string (strncmp_eq param_name Message.t2h_nagle_param 10)
            if t2h_nagle then printed (bit w.conn.t2h_nagle) else (do
              mgmt_nagle ← string (strncmp_eq param_name Message.mgmt_rsp_nagle_param 15)
              if mgmt_nagle
                  then printed (bit w.conn.mgmt_rsp_nagle)
                  else pure Message.get_param_cmd_fail_rsp)))))

  -- The two callbacks, on a command that names a parameter.
  unfoldable pub ask_driver :
      (List ℕ → Run (Device X) (Option (List ℕ))) → (cmd : List ℕ) → Run (World N X) (List ℕ)
  ask_driver get_param cmd = do
    param_name ← string (behind cmd Message.get_driver_param_cmd 17)
    result ← on_dev (get_param param_name)
    pure (elim result [ none ↦ Message.get_param_cmd_fail_rsp | some text ↦ text ])

  unfoldable pub get_driver_parameter : (cmd : List ℕ) → Run (World N X) (List ℕ)
  get_driver_parameter cmd w = elim w.conn.hw_callbacks.get_param [
    | none ↦ some (Message.get_param_cmd_fail_rsp, w)
    | some get_param ↦ ask_driver get_param cmd w
  ]

  unfoldable pub tell_driver :
      (List ℕ → List ℕ → Run (Device X) ℤ) → (found : List ℕ) → Run (World N X) (List ℕ)
  tell_driver set_param found = do
    param_name ← string (advance found 17)
    param_value ← string (behind param_name (codes " ") 1)
    result ←
        on_dev (
          set_param (name_buff param_name (length param_name - length param_value - 1)) param_value)
    pure (
        if int_ltb result (pos 0)
        then Message.set_param_cmd_fail_rsp
        else Message.set_param_cmd_rsp)

  unfoldable pub set_driver_parameter : (cmd : List ℕ) → Run (World N X) (List ℕ)
  set_driver_parameter cmd w = elim w.conn.hw_callbacks.set_param [
    | none ↦ some (Message.set_param_cmd_fail_rsp, w)
    | some set_param ↦ elim (strstr cmd Message.set_driver_param_cmd) [
      | none ↦ none
      | some none ↦ some (Message.set_param_cmd_fail_rsp, w)
      | some (some found) ↦ tell_driver set_param found w
    ]
  ]

  module _ (os : Os N) where
    -- The end of `set_parameter` for the two sockets: the option first, then the flag.
    abbrev pub set_nagle :
        (fd : ℤ) (value : Option Bool)
        → (Bool → Run (World N X) (Unit {0}))
        → Run (World N X) (List ℕ)
    set_nagle fd none keep = pure Message.set_param_cmd_fail_rsp
    set_nagle fd (some nagle) keep = do
      rc ← on_os (set_tcp_no_delay os fd (if nagle then 0 else 1))
      if int_eq rc (pos 0)
          then keep nagle >> pure Message.set_param_cmd_rsp
          else pure Message.set_param_cmd_fail_rsp

    abbrev pub set_loopback : Option Bool → Run (World N X) (List ℕ)
    set_loopback none = pure Message.set_param_cmd_fail_rsp
    set_loopback (some on) =
        set_conn (λ c. record c { loopback_mode = on }) >> pure Message.set_param_cmd_rsp

    -- A SET_PARAM command that stands at `found`.
    unfoldable pub set_found : (found : List ℕ) → ClientConn → Run (World N X) (List ℕ)
    set_found found client = do
      param_name ← string (advance found 10)
      loopback ← string (at_head param_name (codes "SERVER_LOOPBACK"))
      if loopback then string (flag_value param_name 16) >>= set_loopback else (do
        t2h_nagle ← string (at_head param_name (codes "T2H_NAGLE"))
        if t2h_nagle
            then (do
              v ← string (flag_value param_name 10)
              set_nagle client.t2h_data_fd v
                  (λ nagle. set_conn (λ c. record c { t2h_nagle = nagle })))
            else (do
              mgmt_nagle ← string (at_head param_name (codes "MGMT_RSP_NAGLE"))
              if mgmt_nagle
                  then (do
                    v ← string (flag_value param_name 15)
                    set_nagle client.mgmt_rsp_fd v
                        (λ nagle. set_conn (λ c. record c { mgmt_rsp_nagle = nagle })))
                  else pure Message.set_param_cmd_fail_rsp))

    unfoldable pub set_parameter : (cmd : List ℕ) → ClientConn → Run (World N X) (List ℕ)
    set_parameter cmd client w = elim (strstr cmd Message.set_param_cmd) [
      | none ↦ none
      | some none ↦ some (Message.set_param_cmd_fail_rsp, w)
      | some (some found) ↦ set_found found client w
    ]
