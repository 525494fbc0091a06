-- ===== src/Main/Tests.antt =====
-- The options of the program, and its end on a kernel on which every call succeeds.
use remote_debug_for_intel_f.Prelude.{
  ℕ, ◌≡◌, refl, true, false, List, [], ◌∷◌, ◌++◌, some, replicate,
}
use remote_debug_for_intel_f.Prelude.Int.{pos, negsuc}
use remote_debug_for_intel_f.CString.{literal, advance, deref}
use remote_debug_for_intel_f.CString.Strtol.{
  isdigit, is_hex_prefix, strtol, number_of, scan_digits, digit_value,
}
use remote_debug_for_intel_f.Os.Wire.{Wire, wire}
use remote_debug_for_intel_f.Driver.{initial_driver}
use remote_debug_for_intel_f.Server.Terminate.{Terminated}
use remote_debug_for_intel_f.StreamDbg.{
  get_design_info, start_buffers, start_conn, get_hw_callbacks,
}
use remote_debug_for_intel_f.Messages.{exited}
use remote_debug_for_intel_f.Uio.Access.{ram, uio_mmio}
use remote_debug_for_intel_f.Uio.Args.{is_all_digit}
use remote_debug_for_intel_f.Uio.Platform.Resources.{Resource}
use remote_debug_for_intel_f.Uio.Tests.{kernel, running, holding, cleaned, ends_clean, behind}
use remote_debug_for_intel_f.Main.{
  App, initial_cmdline, parse_cmd_args, parse_cmd_arg, parse_integer_arg, strncpy,
  etherlink_sig_handler,
}
use remote_debug_for_intel_f.Main.Ending.{etherlink_sig_handler-exits}

default_address :
    parse_cmd_args ((b'm', literal "8192") ∷ []) initial_cmdline 0
    ≡ some (
      (
        pos 0,
        record initial_cmdline { h2t_t2h_mem_size = 8192; ip = literal "0.0.0.0" ++ replicate 8 0 },
      ),
      0,
    )
unfolding parse_cmd_args parse_cmd_arg parse_integer_arg strncpy is_hex_prefix advance is_all_digit
    isdigit strtol number_of deref scan_digits digit_value
default_address = refl

no_memory :
    parse_cmd_args ((b'm', literal "0") ∷ []) initial_cmdline 0
    ≡ some ((negsuc 2, initial_cmdline), 0)
unfolding parse_cmd_args parse_cmd_arg parse_integer_arg is_hex_prefix advance is_all_digit isdigit
    strtol number_of deref scan_digits digit_value
no_memory = refl

-- While the server runs.
abbrev serving : App (List Resource) Wire (List ℕ)
serving = record {
  platform = running;
  kernel = holding;
  world = record {
    conn =
        start_conn (start_buffers (get_design_info 1024) (replicate 512 0) (replicate 512 0))
          (get_hw_callbacks (uio_mmio (ram 8192) running.interfaces false) true);
    recv_buff = some (replicate 16 0);
    send_buff = some (replicate 16 0);
    os = record { incoming = []; outgoing = [] };
    dev = record { drv = initial_driver; hw = some (replicate 4096 0) };
    terminate_ptr = true;
  };
  mmio_handle = pos 0;
  has_server = true;
  conn_exists = true;
}

etherlink_sig_handler-exits_example :
    (a' : App (List Resource) Wire (List ℕ)) × (etherlink_sig_handler kernel wire
        (ram 8192)
        false
        true
        true
        serving
      ≡ some (exited 0, a'))
    × Terminated a'.world
etherlink_sig_handler-exits_example =
    etherlink_sig_handler-exits kernel wire (ram 8192) false true serving cleaned (behind holding)
      ends_clean refl refl refl
