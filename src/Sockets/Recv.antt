-- ===== src/Sockets/Recv.antt =====
-- The receive loops of streaming/src/intel_st_debug_if_sockets.c over a stream socket.
pub mod Open
pub mod Size
use remote_debug_for_intel_f.Prelude.{
  ℕ, zero, suc, ◌+◌, ◌-◌, ◌^◌, ◌≤◌, ◌<◌, ◌≡◌, inl, inr, refl, sym, ◌∙◌, List, [], ◌∷◌, ◌++◌, Option,
  some, arith, sub64, length, blit_behind, drop, length-append, length-drop, drop-drop,
  append_assoc, zero_or_more, nonzero,
}
use remote_debug_for_intel_f.Prelude.Int.{ℤ, pos}
use remote_debug_for_intel_f.Os.{Os, Received, got, failed, IsStream}
use remote_debug_for_intel_f.Sockets.{
  ReturnCode, ok, failure, init_err, other, recv_loop, socket_recv_accumulate,
}

module _ {N : Type 0} {os : Os N} (st : IsStream os) (fd : ℤ) (flags : ℕ) where
  -- What a loop that may store `room` bytes did: it stored the next bytes of the stream, in order,
  -- over the head of the room, and left the rest of it.
  pub record Stored (s : N) (filled room : List ℕ) (bs : List ℕ) (buff : List ℕ) (s' : N)
      : Type 0 where
    pub next : (more : List ℕ) × (st.pending fd s ≡ bs ++ more)
    pub stored : buff ≡ filled ++ (bs ++ drop (length bs) room)

  -- One round before it.
  pub Stored-step :
      (s t : N) (filled room xs : List ℕ) (bs buff : List ℕ) (s' : N)
      → st.pending fd s ≡ xs ++ st.pending fd t
      → Stored t (filled ++ xs) (drop (length xs) room) bs buff s'
      → Stored s filled room (xs ++ bs) buff s'
  Stored-step s t filled room xs bs buff s' e r = record {
    next = (r.next.0, e ∙ rw (r.next.1) (sym (append_assoc xs bs (r.next.0))));
    stored =
        rw (length-append xs bs, ← drop-drop (length bs) (length xs) room)
          (r.stored ∙ simp append_assoc);
  }

  -- How `socket_recv_accumulate` may end when it was to receive `n` bytes and stored `bs`.
  abbrev pub Ends : ReturnCode → (n : ℕ) → (s : N) (bs : List ℕ) (s' : N) → Type 0
  Ends ok n s bs s' = (length bs ≡ n) × (st.pending fd s ≡ bs ++ st.pending fd s')
  Ends failure n s bs s' = length bs < n
  Ends init_err n s bs s' = ⊥
  Ends (other e) n s bs s' = ⊥

  Ends-step :
      (rc : ReturnCode) (n : ℕ) (s t : N) (xs bs : List ℕ) (s' : N)
      → length xs ≤ n
      → st.pending fd s ≡ xs ++ st.pending fd t
      → Ends rc (n - length xs) t bs s'
      → Ends rc n s (xs ++ bs) s'
  Ends-step ok n s t xs bs s' h e r = (
    omega (arith, length-append xs bs, r.0),
    e ∙ rw (r.1) (sym (append_assoc xs bs (st.pending fd s'))),
  )
  Ends-step failure n s t xs bs s' h e r = omega (arith, length-append xs bs)
  Ends-step init_err n s t xs bs s' h e r = r
  Ends-step (other k) n s t xs bs s' h e r = r

  pub record Accumulated (n : ℕ) (s : N) (filled room : List ℕ)
      (out : Option ((ReturnCode × ℤ × List ℕ) × N)) : Type 0 where
    pub rc : ReturnCode
    pub count : ℤ
    pub bs : List ℕ
    pub buff : List ℕ
    pub s' : N
    pub returns : out ≡ some ((rc, count, buff), s')
    pub stores : Stored s filled room bs buff s'
    pub ends : Ends rc n s bs s'

  pub nothing : (s s' : N) (filled room : List ℕ) → Stored s filled room [] (filled ++ room) s'
  nothing s s' filled room = record { next = (st.pending fd s, refl); stored = refl }

  module _ (len fuel n : ℕ) (filled room : List ℕ) (s : N) where
    abbrev loop : Option ((ReturnCode × ℤ × List ℕ) × N)
    loop = recv_loop os (suc fuel) fd (filled ++ room) (length filled) len flags n s

    abbrev answer : Received
    answer = (os.recv fd n flags s).0

    abbrev after : N
    after = (os.recv fd n flags s).1

    loop_done : n ≡ 0 → loop ≡ some ((ok, pos len, filled ++ room), s)
    unfolding recv_loop
    loop_done e = rw (e, recv_loop)

    loop_failed :
        (e : ℤ) → 0 < n → answer ≡ failed e → loop ≡ some ((failure, e, filled ++ room), after)
    unfolding recv_loop
    loop_failed e h a = rw (nonzero n h, a, recv_loop)

    loop_closed : 0 < n → answer ≡ got [] → loop ≡ some ((failure, pos 0, filled ++ room), after)
    unfolding recv_loop
    loop_closed h a = rw (nonzero n h, a, recv_loop)

    loop_got :
        (b : ℕ) (bs : List ℕ)
        → let xs = b ∷ bs in
          length xs ≤ n
          → n ≤ length room
          → n < 2 ^ 64
          → answer ≡ got xs
          → loop
            ≡ recv_loop os fuel fd
                ((filled ++ xs) ++ drop (length xs) room)
                (length (filled ++ xs))
                len
                flags
                (n - length xs)
                after
    unfolding recv_loop
    loop_got b bs h k w a =
        let xs = b ∷ bs in
        let at : length (filled ++ xs) ≡ length filled + length xs = length-append filled xs in
        let left : n - length xs ≡ sub64 n (length xs) = omega arith in
        rw (at, left)
          (rw (nonzero n (omega arith), a, blit_behind filled room xs (omega arith), recv_loop))

    round :
        n ≤ length room
        → n < 2 ^ 64
        → 0 < n
        → (a : Received) → answer ≡ a
        → ((xs : List ℕ)
            → n - length xs < fuel
            → n - length xs ≤ length (drop (length xs) room)
            → n - length xs < 2 ^ 64
            → Accumulated (n - length xs) after (filled ++ xs) (drop (length xs) room) (
                recv_loop os fuel fd
                  ((filled ++ xs) ++ drop (length xs) room)
                  (length (filled ++ xs))
                  len
                  flags
                  (n - length xs)
                  after))
        → n < suc fuel
        → Accumulated n s filled room loop
    round hr hw h (failed e) a ih hf = record {
      rc = failure;
      count = e;
      bs = [];
      buff = filled ++ room;
      s' = after;
      returns = loop_failed e h a;
      stores = nothing s after filled room;
      ends = h;
    }
    round hr hw h (got []) a ih hf = record {
      rc = failure;
      count = pos 0;
      bs = [];
      buff = filled ++ room;
      s' = after;
      returns = loop_closed h a;
      stores = nothing s after filled room;
      ends = h;
    }
    round hr hw h (got (b ∷ bs)) a ih hf =
        let xs = b ∷ bs in
        let short : length xs ≤ n = st.recv_len fd n flags s xs a in
        let next = st.recv_next fd n flags s xs a in
        let rest =
          ih xs (omega arith) (omega (arith, length-drop (length xs) room)) (omega arith) in
        record {
          rc = rest.rc;
          count = rest.count;
          bs = xs ++ rest.bs;
          buff = rest.buff;
          s' = rest.s';
          returns = loop_got b bs short hr hw a ∙ rest.returns;
          stores = Stored-step s after filled room xs rest.bs rest.buff rest.s' next rest.stores;
          ends = Ends-step rest.rc n s after xs rest.bs rest.s' short next rest.ends;
        }

  recv_loop_lem :
      (len fuel n : ℕ) (filled room : List ℕ) (s : N)
      → n < fuel
      → n ≤ length room
      → n < 2 ^ 64
      → Accumulated n s filled room
          (recv_loop os fuel fd (filled ++ room) (length filled) len flags n s)
  recv_loop_lem len zero n filled room s hf hr hw = absurd (omega arith)
  recv_loop_lem len (suc fuel) n filled room s hf hr hw = elim (zero_or_more n) [
    | inl e ↦ record {
      rc = ok;
      count = pos len;
      bs = [];
      buff = filled ++ room;
      s' = s;
      returns = loop_done len fuel n filled room s e;
      stores = nothing s s filled room;
      ends = (omega arith, refl);
    }
    | inr h ↦
        round len fuel n filled room s hr hw h ((os.recv fd n flags s).0) refl
          (λ xs.
            recv_loop_lem len fuel (n - length xs) (filled ++ xs) (drop (length xs) room)
              (os.recv fd n flags s).1)
          hf
  ]

  -- For a buffer of at least `len` bytes, `len` below 2^64, on a stream socket,
  -- `socket_recv_accumulate` always returns. It stores the next bytes of the stream, in order, at
  -- the head of the buffer and touches nothing behind them: exactly `len` bytes when it answers OK,
  -- with the rest of the stream still to come, and fewer when it answers FAILURE. It answers
  -- nothing else.
  pub socket_recv_accumulate_lem :
      (len : ℕ) (buff : List ℕ) (s : N)
      → len ≤ length buff
      → len < 2 ^ 64
      → Accumulated len s [] buff (socket_recv_accumulate os fd buff len flags s)
  unfolding socket_recv_accumulate
  socket_recv_accumulate_lem len buff s hl hw =
      recv_loop_lem len (suc len) len [] buff s (omega arith) hl hw
