-- ===== src/Main.antt =====
-- main.cpp: the options of the program, its run, and its end by SIGINT. What getopt_long returns for
-- the two tables of options is a parameter.
mod Ending
mod Tests
use remote_debug_for_intel_f.Prelude.{
  not, ◌&&◌, ℕ, zero, suc, ◌-◌, ◌^◌, Bool, true, false, List, [], ◌∷◌, ◌++◌, Option, none, some,
  Run, ltb, ◌==◌, if◌then◌else◌, u32, replicate, set, get_elem?,
}
use remote_debug_for_intel_f.Prelude.Int.{ℤ, pos, negsuc}
use remote_debug_for_intel_f.CString.{literal, advance}
use remote_debug_for_intel_f.CString.Strtol.{isdigit, isxdigit, is_hex_prefix, strtol, erange}
use remote_debug_for_intel_f.Os.{Os}
use remote_debug_for_intel_f.Sockets.{ReturnCode, ok}
use remote_debug_for_intel_f.Server.{World}
use remote_debug_for_intel_f.Server.H2t.{is_ok}
use remote_debug_for_intel_f.StreamDbg.{
  init_st_dbg_transport_server_over_tcpip, start_st_dbg_transport_server_over_tcpip,
  terminate_st_dbg_transport_server_over_tcpip,
}
use remote_debug_for_intel_f.Messages.{Ended, returned, exited}
use remote_debug_for_intel_f.Interfaces.{InterfaceVec, fpga_open, fpga_close}
use remote_debug_for_intel_f.Uio.Access.{Bus, uio_mmio}
use remote_debug_for_intel_f.Uio.Globals.{Platform, UioOs}
use remote_debug_for_intel_f.Uio.Args.{GetoptResult, is_all_digit}
use remote_debug_for_intel_f.Uio.Platform.{fpga_platform_init, fpga_platform_cleanup}

-- EtherlinkCommandLine; `port` is the 32 bits of the int, and `ip` the 16 bytes of the array.
pub record EtherlinkCommandLine : Type 0 where
  pub h2t_t2h_mem_size : ℕ
  pub port : ℕ
  pub ip : List ℕ

abbrev pub initial_cmdline : EtherlinkCommandLine
initial_cmdline = record { h2t_t2h_mem_size = 4096; port = 0; ip = replicate 16 0 }

-- The result and errno, as for the options of the platform.
unfoldable pub parse_integer_arg : (optarg : List ℕ) → Run ℕ ℕ
parse_integer_arg optarg errno = elim (is_hex_prefix optarg) [
  | none ↦ none
  | some hex ↦ elim (advance optarg (if hex then 2 else 0)) [
    | none ↦ none
    | some digits ↦ elim (is_all_digit (if hex then isxdigit else isdigit) digits) [
      | none ↦ none
      | some false ↦ some (0, errno)
      | some true ↦ elim (strtol optarg errno) [
        | none ↦ none
        | some (ret, errno') ↦ some ((if errno' == erange then 0 else ret), errno')
      ]
    ]
  ]
]

-- The `n` bytes that strncpy (dest, s, n) writes.
unfoldable pub strncpy : List ℕ → (n : ℕ) → Option (List ℕ)
strncpy s zero = some []
strncpy [] (suc n) = none
strncpy (c ∷ s) (suc n) = elim (c == 0) [
  | true ↦ some (replicate (suc n) 0)
  | false ↦ elim (strncpy s n) [ none ↦ none | some rest ↦ some (c ∷ rest) ]
]

-- One turn of the loop: the exit code where the function returns, the line and errno where it goes on.
pub data Turn : Type 0 where
  returns : ℤ → Turn
  goes_on : EtherlinkCommandLine → Turn

unfoldable pub parse_cmd_arg : (c : ℕ) (optarg : List ℕ) → EtherlinkCommandLine → Run ℕ Turn
parse_cmd_arg c optarg line errno =
    if c == b'v'
    then some (returns (negsuc 3), errno)
    else if c == b'h'
    then some (returns (negsuc 1), errno)
    else if c == b'm'
    then elim (parse_integer_arg optarg errno) [
      | none ↦ none
      | some (n, e) ↦ some (
        (if n == 0 then returns (negsuc 2) else goes_on (record line { h2t_t2h_mem_size = n })),
        e,
      )
    ]
    else if c == b'p'
    then elim (parse_integer_arg optarg errno) [
      | none ↦ none
      | some (n, e) ↦ some (goes_on (record line { port = u32 n }), e)
    ]
    else if c == b'i'
    then elim (strncpy optarg 15) [
      | none ↦ none
      | some bytes ↦ some (goes_on (record line { ip = bytes ++ (0 ∷ []) }), errno)
    ]
    else some (goes_on line, errno)

-- The result, the line and errno.
unfoldable pub parse_cmd_args :
    List (ℕ × List ℕ) → EtherlinkCommandLine → Run ℕ (ℤ × EtherlinkCommandLine)
parse_cmd_args [] line errno = elim (get_elem? line.ip 0) [
  | none ↦ none
  | some c ↦ elim (if c == 0 then strncpy (literal "0.0.0.0") 16 else some line.ip) [
    | none ↦ none
    | some ip ↦ some ((pos 0, record line { ip = ip }), errno)
  ]
]
parse_cmd_args ((c, optarg) ∷ args) line errno = elim (parse_cmd_arg c optarg line errno) [
  | none ↦ none
  | some (returns rc, e) ↦ some ((rc, line), e)
  | some (goes_on line', e) ↦ parse_cmd_args args line' e
]

-- The program: the platform with its operating system, the server's world over the registers `H`, the
-- handle of StreamingDebug, whether s_etherlink_server is set, and whether the connection that
-- s_server_conn_ptr may point to, a local of start_st_dbg_transport_server_over_tcpip, still exists.
pub record App (W N H : Type 0) : Type 0 where
  pub platform : Platform
  pub kernel : W
  pub world : World N (Option H)
  pub mmio_handle : ℤ
  pub has_server : Bool
  pub conn_exists : Bool

-- The conversion of an `int` to `unsigned int`.
abbrev pub to_unsigned : ℤ → ℕ
to_unsigned (pos n) = n
to_unsigned (negsuc n) = 2 ^ 32 - 1 - n

module _ {W N H : Type 0} (uio_os : UioOs W) (os : Os N) (bus : Bus H)
    (emulate char_is_signed : Bool) where
  -- StreamingDebug::run. The result is none for -1.
  unfoldable pub run :
      (fuel rounds draws h2t_t2h_mem_size port : ℕ) → Run (App W N H) (Option ReturnCode)
  run fuel rounds draws h2t_t2h_mem_size port a = elim (fpga_open 0 a.platform.interfaces) [
    | none ↦ none
    | some (handle, v) ↦
        elim (start_st_dbg_transport_server_over_tcpip os (uio_mmio bus v emulate) char_is_signed
          fuel rounds draws (init_st_dbg_transport_server_over_tcpip handle h2t_t2h_mem_size port)
          a.world) [
            | none ↦ none
            | some (rc, w) ↦ some (
              rc,
              record a {
                platform = record (a.platform) { interfaces = v };
                world = w;
                mmio_handle = handle;
                conn_exists = false;
              },
            )
          ]
  ]

  -- StreamingDebug::terminate. server_terminate faults by itself where s_server_conn_ptr is NULL; where
  -- it points to a connection whose lifetime is over, using it is undefined.
  unfoldable pub terminate : Run (App W N H) (Unit {0})
  terminate a = elim (fpga_close (to_unsigned a.mmio_handle) a.platform.interfaces) [
    | none ↦ none
    | some (_, v) ↦
        if a.world.terminate_ptr && not a.conn_exists
        then none
        else elim (terminate_st_dbg_transport_server_over_tcpip os (uio_mmio bus v emulate)
            char_is_signed a.world) [
              | none ↦ none
              | some (_, w) ↦
                  some
                    (tt, record a { platform = record (a.platform) { interfaces = v }; world = w })
            ]
  ]

  unfoldable pub run_etherlink :
      (fuel rounds draws : ℕ) → EtherlinkCommandLine → Run (App W N H) (Option ReturnCode)
  run_etherlink fuel rounds draws line a =
      elim (run fuel rounds draws line.h2t_t2h_mem_size line.port
        (record a { has_server = true })) [
          | none ↦ none
          | some (rc, a1) ↦ elim (terminate a1) [
            | none ↦ none
            | some (_, a2) ↦ some (rc, record a2 { has_server = false })
          ]
        ]

  -- The cleanup, whose exception handler may end the program.
  abbrev cleanup : App W N H → Ended (Unit {0}) × App W N H
  cleanup a =
      let (ended, (p, w)) = fpga_platform_cleanup uio_os (a.platform, a.kernel) in
      (ended, record a { platform = p; kernel = w })

  -- For SIGINT; any other signal changes nothing.
  unfoldable pub etherlink_sig_handler : (is_sigint : Bool) → Run (App W N H) (Ended (Unit {0}))
  etherlink_sig_handler false a = some (returned tt, a)
  etherlink_sig_handler true a =
      let (ended, a1) = cleanup a in
      elim ended [
        | exited status ↦ some (exited status, a1)
        | returned _ ↦
            if a1.has_server
            then elim (terminate a1) [
              | none ↦ none
              | some (_, a2) ↦ some (exited 0, record a2 { has_server = false })
            ]
            else some (exited 0, a1)
      ]

  -- `rc`, after the label out_exit.
  abbrev out_exit : ℤ → App W N H → Option (Ended ℤ × App W N H)
  out_exit rc a =
      let (ended, a1) = cleanup a in
      some (elim ended [ returned _ ↦ returned rc | exited status ↦ exited status ], a1)

  -- main, with what the two calls of getopt_long return for `argv`.
  unfoldable pub main :
      (fuel rounds draws : ℕ) (args : List (ℕ × List ℕ)) (uio_args : List GetoptResult)
      → Run (App W N H) (Ended ℤ)
  main fuel rounds draws args uio_args a =
      elim (parse_cmd_args args initial_cmdline a.platform.errno) [
        | none ↦ none
        | some ((negsuc n, line), e) ↦
            out_exit (negsuc n) (record a { platform = record (a.platform) { errno = e } })
        | some ((pos n, line), e) ↦
            elim (fpga_platform_init uio_os uio_args
              (record (a.platform) { errno = e }, a.kernel)) [
                | none ↦ none
                | some (false, (p, w)) ↦ out_exit (negsuc 0) (record a { platform = p; kernel = w })
                | some (true, (p, w)) ↦
                    elim (run_etherlink fuel rounds draws line
                      (record a { platform = p; kernel = w })) [
                        | none ↦ none
                        | some (rc, a1) ↦
                            out_exit
                              (elim rc [ none ↦ pos 3 | some r ↦ if is_ok r then pos 0 else pos 3 ])
                              a1
                      ]
              ]
      ]
