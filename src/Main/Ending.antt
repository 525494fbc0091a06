-- ===== src/Main/Ending.antt =====
-- How main.cpp ends: the destructor behind run_etherlink, and SIGINT while the server runs.
use remote_debug_for_intel_f.Prelude.{
  ℕ, ◌≤◌, ◌++◌, Bool, true, List, [], ◌∷◌, none, some, ◌≡◌, ◌≢◌, refl, ap, ◌∙◌, arith, Option-cases,
  inl, inr, le→ltb, u32,
}
use remote_debug_for_intel_f.CString.Decimal.{decimal}
use remote_debug_for_intel_f.CString.Strtol.{erange, long_max}
use remote_debug_for_intel_f.Os.{Os}
use remote_debug_for_intel_f.Server.Terminate.{Terminated, server_terminate-Terminated}
use remote_debug_for_intel_f.StreamDbg.{terminate_st_dbg_transport_server_over_tcpip}
use remote_debug_for_intel_f.Messages.{Ended, returned, exited}
use remote_debug_for_intel_f.Interfaces.{InterfaceVec, fpga_close}
use remote_debug_for_intel_f.Uio.Access.{Bus, uio_mmio}
use remote_debug_for_intel_f.Uio.Globals.{Platform, UioOs}
use remote_debug_for_intel_f.Uio.Args.{letter, uio_parse_args, parse_arg, uio_parse_integer_arg}
use remote_debug_for_intel_f.Uio.Args.Numbers.{uio_parse_integer_arg-decimal}
use remote_debug_for_intel_f.Uio.Platform.{fpga_platform_cleanup}
use remote_debug_for_intel_f.Uio.Platform.Cleanup.{cleanup-vec_size}
use remote_debug_for_intel_f.Main.{
  App, goes_on, to_unsigned, EtherlinkCommandLine, terminate, etherlink_sig_handler,
  parse_integer_arg, parse_cmd_arg,
}

-- The two copies of the parser of numbers are one function.
same_number :
    (optarg : List ℕ) (errno : ℕ)
    → parse_integer_arg optarg errno ≡ uio_parse_integer_arg optarg errno
unfolding parse_integer_arg uio_parse_integer_arg
same_number optarg errno = refl

module _ {W N H : Type 0} (uio_os : UioOs W) (os : Os N) (bus : Bus H)
    (emulate char_is_signed : Bool) where
  -- fpga_close on the table that the cleanup leaves.
  close_of_empty :
      (v : InterfaceVec) (index : ℕ) → v.vec_size ≡ 0 → fpga_close index v ≡ some (tt, v)
  unfolding fpga_close
  close_of_empty v index e = rw (fpga_close, e, le→ltb index 0 (omega arith)) refl

  module _ (a a' : App W N H) where
    terminate-world :
        (u : Unit {0})
        → a.conn_exists ≡ true
        → a.world.terminate_ptr ≡ true
        → terminate uio_os os bus emulate char_is_signed a ≡ some (u, a')
        → Terminated a'.world
    unfolding terminate terminate_st_dbg_transport_server_over_tcpip Terminated
    terminate-world u c t h =
        elim (Option-cases (fpga_close (to_unsigned a.mmio_handle) a.platform.interfaces)) [
          | inl e ↦ absurd (ground arith)
          | inr ((u1, v), e) ↦
              let (w', stopped, done) =
                server_terminate-Terminated os (uio_mmio bus v emulate) a.world t in
              ground (arith, done.0, done.1, done.2)
        ]

    handler-result :
        (p' : Platform) (w' : W) (r : Ended (Unit {0}))
        → fpga_platform_cleanup uio_os (a.platform, a.kernel) ≡ (returned tt, (p', w'))
        → a.has_server ≡ true
        → etherlink_sig_handler uio_os os bus emulate char_is_signed true a ≡ some (r, a')
        → (a2 : App W N H) × (terminate uio_os os bus emulate char_is_signed
              (record a { platform = p'; kernel = w' })
            ≡ some (tt, a2))
          × (r ≡ exited 0)
          × (a'.world ≡ a2.world)
    unfolding etherlink_sig_handler
    handler-result p' w' r h s e =
        elim (Option-cases (
          terminate uio_os os bus emulate char_is_signed
            (record a { platform = p'; kernel = w' }))) [
              | inl e1 ↦ absurd (ground arith)
              | inr ((u, a2), e1) ↦ (a2, e1, ground arith, ground arith)
            ]

  terminate-returns :
      (a : App W N H)
      → a.platform.interfaces.vec_size ≡ 0
      → a.conn_exists ≡ true
      → a.world.terminate_ptr ≡ true
      → terminate uio_os os bus emulate char_is_signed a ≢ none
  unfolding terminate terminate_st_dbg_transport_server_over_tcpip
  terminate-returns a e c t h =
      let v = a.platform.interfaces in
      let closed = close_of_empty v (to_unsigned a.mmio_handle) e in
      let (w', stopped, done) = server_terminate-Terminated os (uio_mmio bus v emulate) a.world t in
      ground (arith, closed, stopped)

  handler-returns :
      (a : App W N H) (p' : Platform) (w' : W)
      → fpga_platform_cleanup uio_os (a.platform, a.kernel) ≡ (returned tt, (p', w'))
      → terminate uio_os os bus emulate char_is_signed (record a { platform = p'; kernel = w' })
        ≢ none
      → etherlink_sig_handler uio_os os bus emulate char_is_signed true a ≢ none
  unfolding etherlink_sig_handler
  handler-returns a p' w' h t e = ground arith

  -- When SIGINT comes while the server runs, and the cleanup of the platform returns, the handler
  -- ends the program with status 0, after both socket buffers are freed and the pointer to the
  -- connection is reset. The server runs where s_etherlink_server and the pointer to the connection
  -- are set and the connection still exists.
  pub etherlink_sig_handler-exits :
      (a : App W N H) (p' : Platform) (w' : W)
      → fpga_platform_cleanup uio_os (a.platform, a.kernel) ≡ (returned tt, (p', w'))
      → a.has_server ≡ true
      → a.conn_exists ≡ true
      → a.world.terminate_ptr ≡ true
      → (a' : App W N H) × (etherlink_sig_handler uio_os os bus emulate char_is_signed true a
          ≡ some (exited 0, a'))
        × Terminated a'.world
  etherlink_sig_handler-exits a p' w' h s c t =
      let a1 = record a { platform = p'; kernel = w' } in
      let empty = cleanup-vec_size uio_os a.platform p' a.kernel w' h in
      elim (Option-cases (etherlink_sig_handler uio_os os bus emulate char_is_signed true a)) [
        | inl e ↦ absurd (handler-returns a p' w' h (terminate-returns a1 empty c t) e)
        | inr ((r, a'), e) ↦
            let (a2, stopped, exits, same) = handler-result a a' p' w' r h s e in
            (a', e ∙ ap (λ x. some (x, a')) exits, rw same (terminate-world a1 a2 tt c t stopped))
      ]

-- Where errno is not ERANGE, the option letter p with the decimal text of a number up to LONG_MAX
-- sets the port to the 32 low bits of that number in the loop of parse_cmd_args, and makes the same
-- text the path of the UIO driver in uio_parse_args.
port_letter-sets_path :
    (n : ℕ) (rest : List ℕ) (p : Platform) (line : EtherlinkCommandLine)
    → n ≤ long_max
    → p.errno ≢ erange
    → (parse_cmd_arg b'p' (decimal n ++ 0 ∷ rest) line p.errno
        ≡ some (goes_on (record line { port = u32 n }), p.errno))
      × (uio_parse_args (letter b'p' (decimal n ++ 0 ∷ rest) ∷ []) p
          ≡ some (record p { drv_path = some (decimal n ++ 0 ∷ rest) }))
unfolding parse_cmd_arg uio_parse_args parse_arg
port_letter-sets_path n rest p line h e = (
  rw
      (same_number (decimal n ++ 0 ∷ rest) p.errno
        ∙ uio_parse_integer_arg-decimal n p.errno rest h e)
      refl,
  refl,
)
