-- ===== src/Sockets/Recv/Open.antt =====
-- socket_recv_accumulate of streaming/src/intel_st_debug_if_sockets.c on a connection that stays up.
use remote_debug_for_intel_f.Prelude.{
  ℕ, drop-append_all, zero, suc, ◌+◌, ◌-◌, ◌^◌, ◌≤◌, ◌<◌, ◌≡◌, inl, inr, sym, ap, ◌∙◌, List, [],
  ◌∷◌, ◌++◌, Option, none, some, arith, length, take, take-append_left, drop, length-append,
  length-drop, zero_or_more,
}
use remote_debug_for_intel_f.Prelude.Int.{ℤ}
use remote_debug_for_intel_f.Os.{Os, got, IsStream}
use remote_debug_for_intel_f.Sockets.{
  ReturnCode, ok, failure, init_err, other, recv_loop, socket_recv_accumulate,
}
use remote_debug_for_intel_f.Sockets.Recv.{loop_done, loop_got, Ends, socket_recv_accumulate_lem}

-- As long as there are bytes to come, `recv` hands some over.
pub record StaysOpen {N : Type 0} {os : Os N} (st : IsStream os) (fd : ℤ) : Type 0 where
  pub gets_some :
      (n flags : ℕ) (s : N)
      → 0 < n
      → 0 < length (st.pending fd s)
      → (b : ℕ) × (bs : List ℕ) × ((os.recv fd n flags s).0 ≡ got (b ∷ bs))

module _ {N : Type 0} {os : Os N} (st : IsStream os) (fd : ℤ) (flags : ℕ)
    (up : StaysOpen st fd) where
  abbrev code : Option ((ReturnCode × ℤ × List ℕ) × N) → ReturnCode
  code none = failure
  code (some ((rc, _, _), _)) = rc

  recv_loop_gets_all :
      (len fuel n : ℕ) (filled room : List ℕ) (s : N)
      → n < fuel
      → n ≤ length room
      → n < 2 ^ 64
      → n ≤ length (st.pending fd s)
      → code (recv_loop os fuel fd (filled ++ room) (length filled) len flags n s) ≡ ok
  recv_loop_gets_all len zero n filled room s hf hr hw hp = absurd (omega arith)
  recv_loop_gets_all len (suc fuel) n filled room s hf hr hw hp = elim (zero_or_more n) [
    | inl e ↦ ap code (loop_done st fd flags len fuel n filled room s e)
    | inr h ↦
        let (b, bs, a) = up.gets_some n flags s h (omega arith) in
        let xs = b ∷ bs in
        let t = (os.recv fd n flags s).1 in
        let short = st.recv_len fd n flags s xs a in
        let left : length (st.pending fd s) ≡ length xs + length (st.pending fd t) =
          ap length (st.recv_next fd n flags s xs a) ∙ length-append xs (st.pending fd t) in
        ap code (loop_got st fd flags len fuel n filled room s b bs short hr hw a)
        ∙ recv_loop_gets_all len fuel (n - length xs) (filled ++ xs) (drop (length xs) room) t
            (omega arith) (omega (arith, length-drop (length xs) room)) (omega arith)
            (omega (arith, left))
  ]

  Ends-ok :
      (rc : ReturnCode) (n : ℕ) (s : N) (bs : List ℕ) (s' : N)
      → rc ≡ ok
      → Ends st fd flags rc n s bs s'
      → (length bs ≡ n) × (st.pending fd s ≡ bs ++ st.pending fd s')
  Ends-ok ok n s bs s' e h = h
  Ends-ok failure n s bs s' e h = absurd (cc e)
  Ends-ok init_err n s bs s' e h = absurd h
  Ends-ok (other k) n s bs s' e h = absurd h

  pub record GotAll (len : ℕ) (s : N) (buff : List ℕ) (out : Option ((ReturnCode × ℤ × List ℕ) × N))
      : Type 0 where
    pub count : ℤ
    pub s' : N
    pub returns : out ≡ some ((ok, count, take len (st.pending fd s) ++ drop len buff), s')
    pub rest : st.pending fd s' ≡ drop len (st.pending fd s)

  -- Where enough bytes are to come, the next `len` of them are received.
  pub socket_recv_accumulate-GotAll :
      (len : ℕ) (buff : List ℕ) (s : N)
      → len ≤ length buff
      → len < 2 ^ 64
      → len ≤ length (st.pending fd s)
      → GotAll len s buff (socket_recv_accumulate os fd buff len flags s)
  unfolding socket_recv_accumulate
  socket_recv_accumulate-GotAll len buff s hl hw hp =
      let r = socket_recv_accumulate_lem st fd flags len buff s hl hw in
      let all : r.rc ≡ ok =
        sym (ap code r.returns)
        ∙ recv_loop_gets_all len (suc len) len [] buff s (omega arith) hl hw hp in
      let (l, next) = Ends-ok r.rc len s r.bs r.s' all r.ends in
      let bytes : r.bs ≡ take len (st.pending fd s) =
        sym (take-append_left r.bs (st.pending fd r.s')) ∙ (λ i. take (l i) (sym next i)) in
      record {
        count = r.count;
        s' = r.s';
        returns =
            r.returns
            ∙ (λ i. some ((all i, r.count, r.stores.stored i), r.s'))
            ∙ (λ i. some ((ok, r.count, bytes i ++ drop (l i) buff), r.s'));
        rest = sym (drop-append_all r.bs (st.pending fd r.s')) ∙ (λ i. drop (l i) (sym next i));
      }
