-- ===== src/Os/Wire.antt =====
-- A small system for the examples: one stream, of which `recv` hands over three bytes at a time and
-- `send` takes two. Everything else succeeds and does nothing.
use mathlib.Core.Bool.{true≢false}
use remote_debug_for_intel_f.Prelude.{
  ℕ, ap, sym, ◌∙◌, ◌≡◌, refl, Bool, true, false, List, [], ◌++◌, some, arith, min, length, take,
  drop, replicate, take-append-drop, length-take,
}
use remote_debug_for_intel_f.Prelude.Int.{ℤ, pos, negsuc}
use remote_debug_for_intel_f.Os.{Os, Received, got, failed, IsStream, KeepsSent}

pub record Wire : Type 0 where
  pub incoming : List ℕ
  pub outgoing : List ℕ

abbrev pub done : Wire → ℤ × Wire
done s = (pos 0, s)

abbrev pub wire : Os Wire
wire = record {
  send = λ fd bs flags s.
      (pos (min 2 (length bs)), record s { outgoing = s.outgoing ++ take (min 2 (length bs)) bs });
  recv = λ fd n flags s.
      (got (take (min n 3) s.incoming), record s { incoming = drop (min n 3) s.incoming });
  socket = λ s. (pos 3, s);
  bind = λ fd port s. done s;
  listen = λ fd backlog s. done s;
  accept = λ fd s. (pos 4, s);
  setsockopt = λ fd option s. done s;
  close = λ fd s. done s;
  select = λ n sets seconds s. (pos 1, sets, s);
  getsockname = λ fd s. (pos 0, 7, s);
  save_file = λ name text s. (true, s);
  rand = λ s. (1, s);
  malloc = λ size s. (some (replicate size 0), s);
}

bytes_in : Received → List ℕ
bytes_in (got bs) = bs
bytes_in (failed e) = []

is_pos : ℤ → Bool
is_pos (pos n) = true
is_pos (negsuc n) = false

number : ℤ → ℕ
number (pos n) = n
number (negsuc n) = 0

unfoldable pub wire-IsStream : IsStream wire
unfolding bytes_in number
wire-IsStream = record {
  pending = λ fd s. s.incoming;
  sent = λ fd s. s.outgoing;
  recv_len = λ fd n flags s bs e.
      omega (arith, length-take (min n 3) s.incoming, ap (λ r. length (bytes_in r)) e);
  recv_next = λ fd n flags s bs e.
      sym (take-append-drop (min n 3) s.incoming)
      ∙ ap (λ r. bytes_in r ++ drop (min n 3) s.incoming) e;
  send_len = λ fd bs flags k s e. omega (arith, ap number e);
  send_next = λ fd bs flags k s e. ap (λ r. s.outgoing ++ take (number r) bs) e;
}

never_failed : (k n : ℕ) → pos k ≡ negsuc n → ⊥
unfolding is_pos
never_failed k n e = true≢false (ap is_pos e)

pub wire-KeepsSent : KeepsSent wire-IsStream
unfolding wire-IsStream
wire-KeepsSent = record {
  send_failed = λ fd bs flags n s e. absurd (never_failed (min 2 (length bs)) n e);
  recv_only = λ fd n flags s. refl;
}
