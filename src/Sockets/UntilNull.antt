-- ===== src/Sockets/UntilNull.antt =====
-- socket_recv_until_null_reached of streaming/src/intel_st_debug_if_sockets.c over a stream socket.
use mathlib.Core.Bool.{true≢false}
use remote_debug_for_intel_f.Prelude.{
  ℕ, zero, suc, ◌+◌, ◌-◌, ◌^◌, ◌≤◌, ◌<◌, ◌≡◌, inl, inr, refl, sym, ap, ◌∙◌, true, false, ◌||◌, List,
  [], ◌∷◌, ◌++◌, Option, some, arith, ◌==◌, sub64, length, blit_behind, drop, length-append,
  length-drop, append_assoc, zero_or_more, nonzero, Bool-cases,
}
use remote_debug_for_intel_f.Prelude.Int.{ℤ, pos}
use remote_debug_for_intel_f.Os.{Os, Received, got, failed, IsStream, KeepsSent}
use remote_debug_for_intel_f.Sockets.{
  ReturnCode, ok, failure, init_err, other, has_null, null_loop, socket_recv_until_null_reached,
}
use remote_debug_for_intel_f.Sockets.Recv.{Stored, Stored-step, nothing}

-- What has been stored on each answer: with OK a NUL is among it, with FAILURE there is none.
abbrev pub Finds : ReturnCode → List ℕ → Type 0
Finds ok bs = has_null bs ≡ true
Finds failure bs = has_null bs ≡ false
Finds init_err bs = ⊥
Finds (other e) bs = ⊥

has_null-append : (xs ys : List ℕ) → has_null xs ≡ false → has_null (xs ++ ys) ≡ has_null ys
has_null-append [] ys e = refl
has_null-append (x ∷ xs) ys e = elim (Bool-cases (x == 0)) [
  | inl z ↦ absurd (true≢false (ap (λ b. b || has_null xs) (sym z) ∙ e))
  | inr z ↦
      ap (λ b. b || has_null (xs ++ ys)) z
      ∙ has_null-append xs ys (ap (λ b. b || has_null xs) (sym z) ∙ e)
]

Finds-step :
    (rc : ReturnCode) (xs bs : List ℕ) → has_null xs ≡ false → Finds rc bs → Finds rc (xs ++ bs)
Finds-step ok xs bs e r = has_null-append xs bs e ∙ r
Finds-step failure xs bs e r = has_null-append xs bs e ∙ r
Finds-step init_err xs bs e r = r
Finds-step (other k) xs bs e r = r

module _ {N : Type 0} {os : Os N} (st : IsStream os) (fd : ℤ) (flags : ℕ) where
  -- `s'` is what calls of `recv` left behind `s`.
  pub data Recvs : N → N → Type 0 where
    no_more : (s : N) → Recvs s s
    one_more : (n : ℕ) (s s' : N) → Recvs (os.recv fd n flags s).1 s' → Recvs s s'

  pub Recvs-sent : KeepsSent st → (s s' : N) → Recvs s s' → st.sent fd s' ≡ st.sent fd s
  Recvs-sent keeps _ _ (no_more s) = refl
  Recvs-sent keeps _ _ (one_more n s s' r) =
      Recvs-sent keeps (os.recv fd n flags s).1 s' r ∙ keeps.recv_only fd n flags s

  pub record ReceivedText (n : ℕ) (s : N) (filled room : List ℕ)
      (out : Option ((ReturnCode × ℤ × List ℕ) × N)) : Type 0 where
    pub rc : ReturnCode
    pub count : ℤ
    pub bs : List ℕ
    pub buff : List ℕ
    pub s' : N
    pub returns : out ≡ some ((rc, count, buff), s')
    pub stores : Stored st fd flags s filled room bs buff s'
    pub fits : length bs ≤ n
    pub finds : Finds rc bs
    pub calls : Recvs s s'

  module _ (len fuel n : ℕ) (filled room : List ℕ) (s : N) where
    abbrev loop : Option ((ReturnCode × ℤ × List ℕ) × N)
    loop = null_loop os (suc fuel) fd (filled ++ room) (length filled) len flags n s

    abbrev answer : Received
    answer = (os.recv fd n flags s).0

    abbrev after : N
    after = (os.recv fd n flags s).1

    loop_done : n ≡ 0 → loop ≡ some ((failure, pos len, filled ++ room), s)
    unfolding null_loop
    loop_done e = rw (e, null_loop)

    loop_failed :
        (e : ℤ) → 0 < n → answer ≡ failed e → loop ≡ some ((failure, e, filled ++ room), after)
    unfolding null_loop
    loop_failed e h a = rw (nonzero n h, a, null_loop)

    loop_closed : 0 < n → answer ≡ got [] → loop ≡ some ((failure, pos 0, filled ++ room), after)
    unfolding null_loop
    loop_closed h a = rw (nonzero n h, a, null_loop)

    module _ (b : ℕ) (bs : List ℕ) (h : length (b ∷ bs) ≤ n) (k : n ≤ length room)
        (w : n < 2 ^ 64) where
      abbrev xs : List ℕ
      xs = b ∷ bs

      loop_found :
          answer ≡ got xs
          → has_null xs ≡ true
          → loop
            ≡ some (
              (ok, pos (len - sub64 n (length xs)), (filled ++ xs) ++ drop (length xs) room),
              after,
            )
      unfolding null_loop
      loop_found a e =
          rw (nonzero n (omega arith), a, blit_behind filled room xs (omega arith), e, null_loop)

      loop_goes_on :
          answer ≡ got xs
          → has_null xs ≡ false
          → loop
            ≡ null_loop os fuel fd
                ((filled ++ xs) ++ drop (length xs) room)
                (length (filled ++ xs))
                len
                flags
                (n - length xs)
                after
      unfolding null_loop
      loop_goes_on a e =
          let at : length (filled ++ xs) ≡ length filled + length xs = length-append filled xs in
          let left : n - length xs ≡ sub64 n (length xs) = omega arith in
          rw (at, left)
            (rw
              (nonzero n (omega arith), a, blit_behind filled room xs (omega arith), e, null_loop))

    -- What the rounds that follow give.
    abbrev Onwards : List ℕ → Type 0
    Onwards xs =
        n - length xs < fuel
        → n - length xs ≤ length (drop (length xs) room)
        → n - length xs < 2 ^ 64
        → ReceivedText (n - length xs) after (filled ++ xs) (drop (length xs) room) (
            null_loop os fuel fd ((filled ++ xs) ++ drop (length xs) room) (length (filled ++ xs))
              len flags (n - length xs) after)

    got_bytes :
        (b : ℕ) (bs : List ℕ)
        → n ≤ length room
        → n < 2 ^ 64
        → 0 < n
        → answer ≡ got (b ∷ bs)
        → Onwards (b ∷ bs)
        → n < suc fuel
        → ReceivedText n s filled room loop
    got_bytes b bs hr hw h a ih hf =
        let xs = b ∷ bs in
        let short : length xs ≤ n = st.recv_len fd n flags s xs a in
        let next = st.recv_next fd n flags s xs a in
        elim (Bool-cases (has_null xs)) [
          | inl e ↦ record {
            rc = ok;
            count = pos (len - sub64 n (length xs));
            bs = xs;
            buff = (filled ++ xs) ++ drop (length xs) room;
            s' = after;
            returns = loop_found b bs short hr hw a e;
            stores = record {
              next = (st.pending fd after, next);
              stored = append_assoc filled xs (drop (length xs) room);
            };
            fits = short;
            finds = e;
            calls = one_more n s after (no_more after);
          }
          | inr e ↦
              let rest =
                ih (omega arith) (omega (arith, length-drop (length xs) room)) (omega arith) in
              record {
                rc = rest.rc;
                count = rest.count;
                bs = xs ++ rest.bs;
                buff = rest.buff;
                s' = rest.s';
                returns = loop_goes_on b bs short hr hw a e ∙ rest.returns;
                stores =
                    Stored-step st fd flags s after filled room xs rest.bs rest.buff rest.s' next
                      rest.stores;
                fits = omega (arith, length-append xs rest.bs, rest.fits);
                finds = Finds-step rest.rc xs rest.bs e rest.finds;
                calls = one_more n s rest.s' rest.calls;
              }
        ]

    round :
        n ≤ length room
        → n < 2 ^ 64
        → 0 < n
        → (a : Received) → answer ≡ a
        → ((xs : List ℕ) → Onwards xs)
        → n < suc fuel
        → ReceivedText n s filled room loop
    round hr hw h (failed e) a ih hf = record {
      rc = failure;
      count = e;
      bs = [];
      buff = filled ++ room;
      s' = after;
      returns = loop_failed e h a;
      stores = nothing st fd flags s after filled room;
      fits = omega arith;
      finds = refl;
      calls = one_more n s after (no_more after);
    }
    round hr hw h (got []) a ih hf = record {
      rc = failure;
      count = pos 0;
      bs = [];
      buff = filled ++ room;
      s' = after;
      returns = loop_closed h a;
      stores = nothing st fd flags s after filled room;
      fits = omega arith;
      finds = refl;
      calls = one_more n s after (no_more after);
    }
    round hr hw h (got (b ∷ bs)) a ih hf = got_bytes b bs hr hw h a (ih (b ∷ bs)) hf

  null_loop_lem :
      (len fuel n : ℕ) (filled room : List ℕ) (s : N)
      → n < fuel
      → n ≤ length room
      → n < 2 ^ 64
      → ReceivedText n s filled room
          (null_loop os fuel fd (filled ++ room) (length filled) len flags n s)
  null_loop_lem len zero n filled room s hf hr hw = absurd (omega arith)
  null_loop_lem len (suc fuel) n filled room s hf hr hw = elim (zero_or_more n) [
    | inl e ↦ record {
      rc = failure;
      count = pos len;
      bs = [];
      buff = filled ++ room;
      s' = s;
      returns = loop_done len fuel n filled room s e;
      stores = nothing st fd flags s s filled room;
      fits = omega arith;
      finds = refl;
      calls = no_more s;
    }
    | inr h ↦
        round len fuel n filled room s hr hw h (os.recv fd n flags s).0 refl
          (λ xs.
            null_loop_lem len fuel (n - length xs) (filled ++ xs) (drop (length xs) room)
              (os.recv fd n flags s).1)
          hf
  ]

  -- For a buffer of at least `max_len` bytes, `max_len` below 2^64, on a stream socket,
  -- `socket_recv_until_null_reached` always returns OK or FAILURE. It stores at most `max_len`
  -- bytes, the next ones of the stream in order, at the head of the buffer and touches nothing
  -- behind them: with OK there is a NUL among them, with FAILURE there is none.
  pub socket_recv_until_null_reached_lem :
      (max_len : ℕ) (buff : List ℕ) (s : N)
      → max_len ≤ length buff
      → max_len < 2 ^ 64
      → ReceivedText max_len s [] buff (socket_recv_until_null_reached os fd buff max_len flags s)
  unfolding socket_recv_until_null_reached
  socket_recv_until_null_reached_lem max_len buff s hl hw =
      null_loop_lem max_len (suc max_len) max_len [] buff s (omega arith) hl hw
