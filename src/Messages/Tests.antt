-- ===== src/Messages/Tests.antt =====
-- Messages with the default handlers.
use remote_debug_for_intel_f.Prelude.{ℕ, ◌≡◌, refl, List, [], ◌∷◌, ◌++◌}
use remote_debug_for_intel_f.CString.{codes}
use remote_debug_for_intel_f.Messages.{
  Messages, Handlers, returned, exited, info, debug, unknown, fpga_msg_printf, default_printf,
  fpga_throw_runtime_exception, default_runtime_exception_handler, fpga_platform_register_printf,
}

abbrev handlers : Handlers (List ℕ)
handlers = record {
  call_printf = λ f type text w. (0, w ++ text);
  call_exception_handler = λ f text w. returned w;
}

abbrev silent : Messages (List ℕ)
silent = record {
  platform_printf = 0;
  runtime_exception_handler = 0;
  show_dbg_msg = 0;
  stdout = [];
  world = [];
}

default_info :
    fpga_msg_printf handlers info (codes "up") silent
    ≡ (returned 2, record silent { stdout = codes "INFO: up" ++ (10 ∷ []) })
unfolding fpga_msg_printf default_printf
default_info = refl

hidden_debug : fpga_msg_printf handlers debug (codes "up") silent ≡ (returned 0, silent)
unfolding fpga_msg_printf default_printf
hidden_debug = refl

unknown_type : (fpga_msg_printf handlers (unknown 9) (codes "up") silent).0 ≡ exited 1
unfolding fpga_msg_printf default_printf fpga_throw_runtime_exception
    default_runtime_exception_handler
unknown_type = refl

registered_printf :
    fpga_msg_printf handlers info (codes "up") (fpga_platform_register_printf 5 silent)
    ≡ (returned 0, record silent { platform_printf = 5; world = codes "up" })
unfolding fpga_msg_printf fpga_platform_register_printf
registered_printf = refl
