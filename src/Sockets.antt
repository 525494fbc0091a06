-- ===== src/Sockets.antt =====
-- streaming/src/intel_st_debug_if_sockets.c: the loops over `send` and `recv`, the wrappers of socket
-- options, and `max_of`. The value that goes through `bytes_sent` or `bytes_recvd` is returned.
pub mod Send
pub mod Recv
pub mod UntilNull
mod Tests
use remote_debug_for_intel_f.Prelude.{
  ℕ, zero, suc, ◌+◌, ◌-◌, ◌≤◌, Bool, true, false, ◌||◌, List, [], ◌∷◌, Option, none, some, Run,
  ◌==◌, if◌then◌else◌, sub64, length, slice, blit, ltb, leb,
}
use remote_debug_for_intel_f.Prelude.Int.{ℤ, pos, negsuc}
use remote_debug_for_intel_f.Os.{Os, got, failed, SockOpt, reuse_addr, tcp_no_delay, linger, FdSets}

-- RETURN_CODE. A C enumeration also holds the conversion of any other `int`.
pub data ReturnCode : Type 0 where
  ok failure init_err : ReturnCode
  other : ℤ → ReturnCode

abbrev pub to_return_code : ℤ → ReturnCode
to_return_code (pos zero) = ok
to_return_code (pos (suc zero)) = failure
to_return_code (pos (suc (suc zero))) = init_err
to_return_code n = other n

abbrev pub int_ltb : ℤ → ℤ → Bool
int_ltb (pos a) (pos b) = ltb a b
int_ltb (pos a) (negsuc b) = false
int_ltb (negsuc a) (pos b) = true
int_ltb (negsuc a) (negsuc b) = ltb b a

abbrev pub int_eq : ℤ → ℤ → Bool
int_eq (pos a) (pos b) = a == b
int_eq (negsuc a) (negsuc b) = a == b
int_eq (pos a) (negsuc b) = false
int_eq (negsuc a) (pos b) = false

-- MAX_MACRO and `max_of`, whose loop starts at 0.
max_from : ℤ → List ℤ → ℤ
max_from result [] = result
max_from result (fd ∷ array) = max_from (if int_ltb result fd then fd else result) array

unfoldable pub max_of : List ℤ → ℤ
unfolding max_from
max_of array = max_from (pos 0) array

-- memchr (buff, 0, n) != NULL over the bytes that have just come.
abbrev pub has_null : List ℕ → Bool
has_null [] = false
has_null (b ∷ bs) = (b == 0) || has_null bs

-- There is nothing to initialise on Linux.
abbrev pub initialize_sockets_library : ReturnCode
initialize_sockets_library = ok

-- EAGAIN
abbrev eagain : ℤ
eagain = pos 11

-- `errno` is an argument, and so is <string.h>'s strerror.
unfoldable pub get_last_socket_error : (errno : ℤ) → ℤ
get_last_socket_error errno = errno

unfoldable pub is_last_socket_error_would_block : (errno : ℤ) → ℕ
unfolding get_last_socket_error
is_last_socket_error_would_block errno =
    if int_eq (get_last_socket_error errno) eagain then 1 else 0

-- `none` is NULL.
unfoldable pub get_last_socket_error_msg : (strerror : ℤ → List ℕ) (errno : ℤ) → Option (List ℕ)
get_last_socket_error_msg strerror errno =
    if int_ltb (pos 0) errno then some (strerror errno) else none

module _ {N : Type 0} (os : Os N) where
  -- `bytes_remaining` bytes are left of the `len` from `buff` on. Each round that goes on takes a
  -- byte at least, so `len` rounds are enough.
  unfoldable pub send_loop :
      (fuel : ℕ) (fd : ℤ) (buff : List ℕ) (len flags bytes_remaining : ℕ) → Run N (ReturnCode × ℤ)
  send_loop zero fd buff len flags bytes_remaining s = none
  send_loop (suc fuel) fd buff len flags bytes_remaining s = elim (bytes_remaining == 0) [
    | true ↦ some ((ok, pos len), s)
    | false ↦ elim (slice buff (len - bytes_remaining) bytes_remaining) [
      | none ↦ none
      | some rest ↦
          let (sent, s') = os.send fd rest flags s in
          elim sent [
            | pos zero ↦ some ((failure, pos 0), s')
            | pos (suc k) ↦ send_loop fuel fd buff len flags (sub64 bytes_remaining (suc k)) s'
            | negsuc k ↦ some ((failure, negsuc k), s')
          ]
    ]
  ]

  unfoldable pub socket_send_all : (fd : ℤ) (buff : List ℕ) (len flags : ℕ) → Run N (ReturnCode × ℤ)
  socket_send_all fd buff len flags = send_loop (suc len) fd buff len flags len

  -- `at` is how far `buff` has been advanced in its object, which goes in and comes out.
  unfoldable pub recv_loop :
      (fuel : ℕ) (fd : ℤ) (buff : List ℕ) (at len flags bytes_remaining : ℕ)
      → Run N (ReturnCode × ℤ × List ℕ)
  recv_loop zero fd buff at len flags bytes_remaining s = none
  recv_loop (suc fuel) fd buff at len flags bytes_remaining s = elim (bytes_remaining == 0) [
    | true ↦ some ((ok, pos len, buff), s)
    | false ↦
        let (answer, s') = os.recv fd bytes_remaining flags s in
        elim answer [
          | failed e ↦ some ((failure, e, buff), s')
          | got [] ↦ some ((failure, pos 0, buff), s')
          | got (b ∷ bs) ↦ elim (blit buff at (b ∷ bs)) [
            | none ↦ none
            | some buff' ↦
                recv_loop fuel fd buff' (at + length (b ∷ bs)) len flags
                  (sub64 bytes_remaining (length (b ∷ bs))) s'
          ]
        ]
  ]

  unfoldable pub socket_recv_accumulate :
      (fd : ℤ) (buff : List ℕ) (len flags : ℕ) → Run N (ReturnCode × ℤ × List ℕ)
  socket_recv_accumulate fd buff len flags = recv_loop (suc len) fd buff 0 len flags len

  unfoldable pub null_loop :
      (fuel : ℕ) (fd : ℤ) (buff : List ℕ) (at max_len flags bytes_remaining : ℕ)
      → Run N (ReturnCode × ℤ × List ℕ)
  null_loop zero fd buff at max_len flags bytes_remaining s = none
  null_loop (suc fuel) fd buff at max_len flags bytes_remaining s = elim (bytes_remaining == 0) [
    | true ↦ some ((failure, pos max_len, buff), s)
    | false ↦
        let (answer, s') = os.recv fd bytes_remaining flags s in
        elim answer [
          | failed e ↦ some ((failure, e, buff), s')
          | got [] ↦ some ((failure, pos 0, buff), s')
          | got (b ∷ bs) ↦ elim (blit buff at (b ∷ bs)) [
            | none ↦ none
            | some buff' ↦
                let remaining = sub64 bytes_remaining (length (b ∷ bs)) in
                elim (has_null (b ∷ bs)) [
                  | true ↦ some ((ok, pos (max_len - remaining), buff'), s')
                  | false ↦
                      null_loop fuel fd buff' (at + length (b ∷ bs)) max_len flags remaining s'
                ]
          ]
        ]
  ]

  unfoldable pub socket_recv_until_null_reached :
      (fd : ℤ) (buff : List ℕ) (max_len flags : ℕ) → Run N (ReturnCode × ℤ × List ℕ)
  socket_recv_until_null_reached fd buff max_len flags =
      null_loop (suc max_len) fd buff 0 max_len flags max_len

  unfoldable pub set_boolean_socket_option : ℤ → SockOpt → Run N ℤ
  set_boolean_socket_option fd option s = some (os.setsockopt fd option s)

  unfoldable pub set_tcp_no_delay : ℤ → ℕ → Run N ℤ
  set_tcp_no_delay fd no_delay s = some (os.setsockopt fd (tcp_no_delay no_delay) s)

  unfoldable pub set_linger_socket_option : ℤ → ℕ → ℕ → Run N ℤ
  set_linger_socket_option fd l_onoff l_linger s =
      some (os.setsockopt fd (linger l_onoff l_linger) s)

  unfoldable pub close_socket_fd : ℤ → Run N ℤ
  close_socket_fd fd s = some (os.close fd s)

  unfoldable pub wait_for_read_event : ℤ → (seconds : ℕ) → Run N (Unit {0})
  wait_for_read_event fd seconds s =
      let sets : FdSets = record { read_fds = fd ∷ []; write_fds = []; except_fds = [] } in
      let nfds : ℤ = elim fd [
        | pos n ↦ pos (suc n)
        | negsuc zero ↦ pos 0
        | negsuc (suc n) ↦ negsuc n
      ] in
      let (_, _, s') = os.select nfds sets seconds s in some (tt, s')
