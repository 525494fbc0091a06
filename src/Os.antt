-- ===== src/Os.antt =====
-- The operating system under the server: sockets, `rand` and `malloc`. None of it is in this
-- repository, so it is a parameter; `IsStream` says what POSIX promises of a connected stream socket.
pub mod Wire
use remote_debug_for_intel_f.Prelude.{
  ℕ, suc, ◌+◌, ◌≤◌, ◌<◌, ◌≡◌, ◌≢◌, Bool, List, [], ◌∷◌, ◌++◌, Option, length, take,
}
use remote_debug_for_intel_f.Prelude.Int.{ℤ, pos, negsuc}

-- What `recv` gives: bytes (none at all when the peer has closed), or an error.
pub data Received : Type 0 where
  got : List ℕ → Received
  failed : ℤ → Received

-- The options that the program sets.
pub data SockOpt : Type 0 where
  reuse_addr : ℕ → SockOpt
  tcp_no_delay : ℕ → SockOpt
  linger : (l_onoff l_linger : ℕ) → SockOpt

-- The three sets of `select`, before and after.
pub record FdSets : Type 0 where
  pub read_fds : List ℤ
  pub write_fds : List ℤ
  pub except_fds : List ℤ

-- `N` is the state of the system. INVALID_SOCKET is -1. `getsockname` gives the port; `save_file` is
-- fopen, fprintf and fclose.
pub record Os (N : Type 0) : Type 0 where
  pub send : (fd : ℤ) → List ℕ → (flags : ℕ) → N → ℤ × N
  pub recv : (fd : ℤ) → (len flags : ℕ) → N → Received × N
  pub socket : N → ℤ × N
  pub bind : (fd : ℤ) → (port : ℕ) → N → ℤ × N
  pub listen : (fd : ℤ) → (backlog : ℕ) → N → ℤ × N
  pub accept : (fd : ℤ) → N → ℤ × N
  pub setsockopt : (fd : ℤ) → SockOpt → N → ℤ × N
  pub close : (fd : ℤ) → N → ℤ × N
  pub select : (nfds : ℤ) → FdSets → (seconds : ℕ) → N → ℤ × FdSets × N
  pub getsockname : (fd : ℤ) → N → ℤ × ℕ × N
  pub save_file : (name text : List ℕ) → N → Bool × N
  pub rand : N → ℕ × N
  pub malloc : (size : ℕ) → N → Option (List ℕ) × N

-- A stream socket hands over the bytes of its peer in order, at least one and at most as many as are
-- asked for; and it takes a prefix of what it is given. `pending` are the bytes to come on a socket,
-- `sent` those that it took.
pub record IsStream {N : Type 0} (os : Os N) : Type 0 where
  pub pending : ℤ → N → List ℕ
  pub sent : ℤ → N → List ℕ
  pub recv_len :
      (fd : ℤ) (n flags : ℕ) (s : N) (bs : List ℕ)
      → (os.recv fd n flags s).0 ≡ got bs
      → length bs ≤ n
  pub recv_next :
      (fd : ℤ) (n flags : ℕ) (s : N) (bs : List ℕ)
      → (os.recv fd n flags s).0 ≡ got bs
      → pending fd s ≡ bs ++ pending fd (os.recv fd n flags s).1
  pub send_len :
      (fd : ℤ) (bs : List ℕ) (flags k : ℕ) (s : N)
      → (os.send fd bs flags s).0 ≡ pos k
      → k ≤ length bs
  pub send_next :
      (fd : ℤ) (bs : List ℕ) (flags k : ℕ) (s : N)
      → (os.send fd bs flags s).0 ≡ pos k
      → sent fd (os.send fd bs flags s).1 ≡ sent fd s ++ take k bs

-- What POSIX promises beside it: a `send` that answers an error has taken nothing, and `recv` sends
-- nothing.
pub record KeepsSent {N : Type 0} {os : Os N} (st : IsStream os) : Type 0 where
  pub send_failed :
      (fd : ℤ) (bs : List ℕ) (flags n : ℕ) (s : N)
      → (os.send fd bs flags s).0 ≡ negsuc n
      → st.sent fd (os.send fd bs flags s).1 ≡ st.sent fd s
  pub recv_only :
      (fd : ℤ) (n flags : ℕ) (s : N) → st.sent fd (os.recv fd n flags s).1 ≡ st.sent fd s
