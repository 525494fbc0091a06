-- ===== src/Server/Message.antt =====
-- The texts of streaming/src/intel_st_debug_if_constants.c, each with its NUL, and the welcome message
-- of streaming/src/intel_st_debug_if_server.c.
use remote_debug_for_intel_f.Prelude.{ℕ, List, ◌++◌, Option}
use remote_debug_for_intel_f.CString.{codes, literal}
use remote_debug_for_intel_f.CString.Decimal.{decimal, snprintf}
use remote_debug_for_intel_f.Server.{ServerBuffers}

abbrev pub control_sock_name : List ℕ
control_sock_name = codes "Control"

abbrev pub management_sock_name : List ℕ
management_sock_name = codes "Management"

abbrev pub management_rsp_sock_name : List ℕ
management_rsp_sock_name = codes "Management Response"

abbrev pub h2t_sock_name : List ℕ
h2t_sock_name = codes "H2T"

abbrev pub t2h_sock_name : List ℕ
t2h_sock_name = codes "T2H"

abbrev pub ready_msg : List ℕ
ready_msg = literal "READY"

abbrev pub not_ready_msg : List ℕ
not_ready_msg = literal "NOT_READY"

abbrev pub reject_msg : List ℕ
reject_msg = literal "SERVER_BUSY"

abbrev pub ping_cmd : List ℕ
ping_cmd = literal "PING"

abbrev pub get_param_cmd : List ℕ
get_param_cmd = codes "GET_PARAM"

abbrev pub disconnect_cmd : List ℕ
disconnect_cmd = literal "DISCONNECT"

abbrev pub set_param_cmd : List ℕ
set_param_cmd = codes "SET_PARAM"

abbrev pub set_driver_param_cmd : List ℕ
set_driver_param_cmd = codes "SET_DRIVER_PARAM"

abbrev pub get_driver_param_cmd : List ℕ
get_driver_param_cmd = codes "GET_DRIVER_PARAM"

abbrev pub unrecognized_cmd_rsp : List ℕ
unrecognized_cmd_rsp = literal "UNRECOGNIZED_COMMAND"

abbrev pub ping_cmd_rsp : List ℕ
ping_cmd_rsp = literal "PONG"

abbrev pub set_param_cmd_rsp : List ℕ
set_param_cmd_rsp = literal "SET_PARAM_ACK"

abbrev pub set_param_cmd_fail_rsp : List ℕ
set_param_cmd_fail_rsp = literal "SET_PARAM_FAIL_ACK"

abbrev pub get_param_cmd_fail_rsp : List ℕ
get_param_cmd_fail_rsp = literal "GET_PARAM_FAILURE"

abbrev pub disconnect_cmd_rsp : List ℕ
disconnect_cmd_rsp = literal "DISCONNECT_ACK"

abbrev pub server_loopback_mode_param : List ℕ
server_loopback_mode_param = literal "SERVER_LOOPBACK"

abbrev pub h2t_rx_buffer_size_param : List ℕ
h2t_rx_buffer_size_param = literal "H2T_RX_BUFF_SZ"

abbrev pub mgmt_rx_buffer_size_param : List ℕ
mgmt_rx_buffer_size_param = literal "MGMT_RX_BUFF_SZ"

abbrev pub ctrl_rx_buffer_size_param : List ℕ
ctrl_rx_buffer_size_param = literal "CTRL_RX_BUFF_SZ"

abbrev pub t2h_nagle_param : List ℕ
t2h_nagle_param = literal "T2H_NAGLE"

abbrev pub mgmt_rsp_nagle_param : List ℕ
mgmt_rsp_nagle_param = literal "MGMT_RSP_NAGLE"

unfoldable pub generate_server_welcome_message :
    (buff : List ℕ) (buff_size mgmt_support : ℕ) → ServerBuffers → (handle : ℕ) → Option (List ℕ)
generate_server_welcome_message buff buff_size mgmt_support serv_buff handle =
    snprintf buff buff_size (
      codes "Welcome to INTEL_ST_HOST_EP_SERVER: MGMT_SUPPORT="
      ++ decimal mgmt_support
      ++ codes " H2T_RX_BUFF_SZ="
      ++ decimal serv_buff.h2t_rx_buff_sz
      ++ codes " MGMT_RX_BUFF_SZ="
      ++ decimal serv_buff.mgmt_rx_buff_sz
      ++ codes " CTRL_RX_BUFF_SZ="
      ++ decimal serv_buff.ctrl_rx_buff_sz
      ++ codes " HANDLE="
      ++ decimal handle)
