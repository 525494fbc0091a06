-- ===== src/Messages.antt =====
-- protodrv_api/common/src/intel_fpga_api_cmn_msg.c: messages, and exceptions that end the program. A
-- message is the text that its format and arguments expand to. A registered handler is the address
-- of a function; what it does is a parameter. Address 0 stands for the default handler.
mod Tests
use remote_debug_for_intel_f.Prelude.{
  ℕ, Bool, true, false, List, [], ◌∷◌, ◌++◌, ◌==◌, if◌then◌else◌, length,
}
use remote_debug_for_intel_f.CString.{codes}

-- FPGA_MSG_PRINTF_TYPE; `unknown` is any other value of the enumeration's integer type.
pub data PrintfType : Type 0 where
  info : PrintfType
  warning : PrintfType
  error : PrintfType
  debug : PrintfType
  unknown : ℕ → PrintfType

-- The three globals, standard output, and what the registered functions change.
pub record Messages (W : Type 0) : Type 0 where
  pub platform_printf : ℕ
  pub runtime_exception_handler : ℕ
  pub show_dbg_msg : ℕ
  pub stdout : List ℕ
  pub world : W

-- A call that returns, or that ends the program with a status.
pub data Ended (A : Type 0) : Type 0 where
  returned : A → Ended A
  exited : (status : ℕ) → Ended A

-- The registered functions, by their addresses.
pub record Handlers (W : Type 0) : Type 0 where
  pub call_printf : (function : ℕ) → PrintfType → (text : List ℕ) → W → ℕ × W
  pub call_exception_handler : (function : ℕ) → (text : List ℕ) → W → Ended W

-- fputs (prefix), vprintf (text), fputs ("\n"); the result is the one of vprintf.
abbrev pub put_line : {W : Type 0} → (front text : List ℕ) → Messages W → ℕ × Messages W
put_line front text m = (length text, record m { stdout = m.stdout ++ front ++ text ++ (10 ∷ []) })

unfoldable pub fpga_platform_register_printf : {W : Type 0} → ℕ → Messages W → Messages W
fpga_platform_register_printf msg_printf m = record m { platform_printf = msg_printf }

unfoldable pub fpga_platform_register_runtime_exception_handler :
    {W : Type 0} → ℕ → Messages W → Messages W
fpga_platform_register_runtime_exception_handler handler m = record m {
  runtime_exception_handler = handler;
}

-- The status of exit. Function, line and file of the message stand in the text.
unfoldable pub default_runtime_exception_handler :
    {W : Type 0} → (text : List ℕ) → Messages W → ℕ × Messages W
default_runtime_exception_handler text m =
    let m' = record m {
      stdout =
          m.stdout
          ++ codes "Exception occured in "
          ++ text
          ++ (10 ∷ 10 ∷ [])
          ++ codes "Application is terminated."
          ++ (10 ∷ []);
    } in
    (1, m')

module _ {W : Type 0} (handlers : Handlers W) where
  -- The state that is left, also when the program ends.
  unfoldable pub fpga_throw_runtime_exception :
      (text : List ℕ) → Messages W → Ended (Unit {0}) × Messages W
  fpga_throw_runtime_exception text m =
      if m.runtime_exception_handler == 0
      then (let (status, m') = default_runtime_exception_handler text m in (exited status, m'))
      else elim (handlers.call_exception_handler m.runtime_exception_handler text m.world) [
        | returned w ↦ (returned tt, record m { world = w })
        | exited status ↦ (exited status, m)
      ]

  unfoldable pub default_printf : PrintfType → (text : List ℕ) → Messages W → Ended ℕ × Messages W
  default_printf info text m = let (n, m') = put_line (codes "INFO: ") text m in (returned n, m')
  default_printf warning text m =
      let (n, m') = put_line (codes "WARNING: ") text m in (returned n, m')
  default_printf error text m = let (n, m') = put_line (codes "ERROR: ") text m in (returned n, m')
  default_printf debug text m =
      if m.show_dbg_msg == 0
      then (returned 0, m)
      else (let (n, m') = put_line (codes "DEBUG: ") text m in (returned n, m'))
  default_printf (unknown _) text m =
      let (e, m') =
        fpga_throw_runtime_exception (codes "invalid message print type is specified.") m in
      elim e [ returned _ ↦ (returned 0, m') | exited status ↦ (exited status, m') ]

  unfoldable pub fpga_msg_printf : PrintfType → (text : List ℕ) → Messages W → Ended ℕ × Messages W
  fpga_msg_printf type text m =
      if m.platform_printf == 0
      then default_printf type text m
      else (let (n, w) = handlers.call_printf m.platform_printf type text m.world in
          (returned n, record m { world = w }))
