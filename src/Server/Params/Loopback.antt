-- ===== src/Server/Params/Loopback.antt =====
-- The loopback parameter of the server, set and read back by commands.
use remote_debug_for_intel_f.Prelude.{
  ℕ, ◌≡◌, ◌≢◌, refl, true, false, List, ◌∷◌, ◌++◌, some, ◌==◌, if◌then◌else◌, arith, length, ◌>>=◌,
}
use remote_debug_for_intel_f.CString.{
  codes, literal, strstr, starts_with, strncmp_eq, strnlen, advance, deref,
}
use remote_debug_for_intel_f.Os.{Os}
use remote_debug_for_intel_f.Server.{ClientConn, World}
use remote_debug_for_intel_f.Server.Message
use remote_debug_for_intel_f.Server.Params.{
  get_parameter, set_parameter, set_found, at_head, string,
}

-- The two commands; `rest` is what stands behind the value.
abbrev pub set_loopback_cmd : (value : ℕ) (rest : List ℕ) → List ℕ
set_loopback_cmd value rest = codes "SET_PARAM SERVER_LOOPBACK " ++ (value ∷ rest)

abbrev pub get_loopback_cmd : List ℕ
get_loopback_cmd = literal "GET_PARAM SERVER_LOOPBACK"

equals_itself : (n : ℕ) → (n == n) ≡ true
equals_itself n = ground arith

differs : (v : ℕ) → v ≢ 0 → (v == 0) ≡ false
differs v h = ground (arith, h)

name_at_head :
    (value : ℕ) (rest : List ℕ)
    → at_head (codes "SERVER_LOOPBACK " ++ (value ∷ rest)) (codes "SERVER_LOOPBACK") ≡ some true
unfolding strstr starts_with
name_at_head value rest = rw (equals_itself (length (codes "SERVER_LOOPBACK " ++ (value ∷ rest))))

module _ {N X : Type 0} (os : Os N) (client : ClientConn) where
  set_run :
      (value : ℕ) (rest : List ℕ) (w : World N X)
      → value ≢ 0
      → set_parameter os (set_loopback_cmd value rest) client w
        ≡ some (
          Message.set_param_cmd_rsp,
          record w { conn = record (w.conn) { loopback_mode = value == b'1' } },
        )
  unfolding set_parameter set_found strstr starts_with advance strnlen deref
  set_run value rest w h =
      rw (equals_itself (length (codes "SERVER_LOOPBACK " ++ (value ∷ rest))))
        (rw (differs value h, string, ◌>>=◌))

  get_run :
      (w : World N X)
      → get_parameter get_loopback_cmd w
        ≡ some ((if w.conn.loopback_mode then literal "1" else literal "0"), w)
  unfolding get_parameter strstr starts_with advance strncmp_eq
  get_run w = refl

  -- The command SET_PARAM SERVER_LOOPBACK with a value other than NUL, whatever stands behind it,
  -- is acknowledged; it turns loopback mode on exactly if the value is the character 1, and the
  -- command GET_PARAM SERVER_LOOPBACK then answers 1 or 0 accordingly and changes nothing.
  pub get_parameter-set_parameter :
      (value : ℕ) (rest : List ℕ) (w : World N X)
      → value ≢ 0
      → (w' : World N X) × (set_parameter os (set_loopback_cmd value rest) client w
          ≡ some (Message.set_param_cmd_rsp, w'))
        × (get_parameter get_loopback_cmd w'
            ≡ some ((if value == b'1' then literal "1" else literal "0"), w'))
        × (w'.conn.loopback_mode ≡ (value == b'1'))
  get_parameter-set_parameter value rest w h = (_, set_run value rest w h, get_run _, refl)
