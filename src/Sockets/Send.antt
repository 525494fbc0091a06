-- ===== src/Sockets/Send.antt =====
-- socket_send_all of streaming/src/intel_st_debug_if_sockets.c over a stream socket.
pub mod Taken
use remote_debug_for_intel_f.Prelude.{
  ℕ, ◌⊎◌, inl, inr, zero, suc, ◌+◌, ◌-◌, ◌^◌, ◌≤◌, ◌<◌, ◌≡◌, refl, sym, ap, ◌∙◌, List, [], ◌∷◌,
  ◌++◌, Option, some, arith, sub64, length, slice, take, drop, length-append, length-drop,
  length-take, take-append_left, drop-append_left, append_assoc, append-nil, le→leb,
  take-append-drop, take-take, nonzero,
}
use remote_debug_for_intel_f.Prelude.Int.{ℤ, pos, negsuc}
use remote_debug_for_intel_f.Os.{Os, IsStream, KeepsSent}
use remote_debug_for_intel_f.Sockets.{
  ReturnCode, ok, failure, init_err, other, send_loop, socket_send_all,
}

-- The bytes behind what has been sent.
slice_behind :
    (gone rest tail : List ℕ)
    → slice (gone ++ (rest ++ tail)) (length gone) (length rest) ≡ some rest
slice_behind gone rest tail =
    let fits : length gone + length rest ≤ length (gone ++ (rest ++ tail)) =
      omega (arith, length-append gone (rest ++ tail), length-append rest tail) in
    let here : drop (length gone) (gone ++ (rest ++ tail)) ≡ rest ++ tail =
      ap (λ n. drop n (gone ++ (rest ++ tail))) {x = length gone} {y = length gone + 0}
        (omega arith)
      ∙ drop-append_left gone (rest ++ tail) 0 in
    rw (
      le→leb (length gone + length rest) (length (gone ++ (rest ++ tail))) fits,
      here,
      take-append_left,
    )

module _ {N : Type 0} {os : Os N} (st : IsStream os) (fd : ℤ) (flags : ℕ) where
  -- `s'` is what a call of `send` for some bytes left behind `t` that took none of them.
  pub record Refused (t s' : N) : Type 0 where
    pub rest : List ℕ
    pub some_left : 0 < length rest
    pub left : s' ≡ (os.send fd rest flags t).1
    pub took :
        ((n : ℕ) × ((os.send fd rest flags t).0 ≡ negsuc n)) ⊎ ((os.send fd rest flags t).0 ≡ pos 0)

  -- How `socket_send_all` may end when it was to send `bs`: all of them are sent, or only a proper
  -- prefix was when a call of `send` took nothing.
  abbrev pub Sends : ReturnCode → (s : N) (bs : List ℕ) (s' : N) → Type 0
  Sends ok s bs s' = st.sent fd s' ≡ st.sent fd s ++ bs
  Sends failure s bs s' =
      (t : N) × (k : ℕ) × (k < length bs)
      × (st.sent fd t ≡ st.sent fd s ++ take k bs)
      × Refused t s'
  Sends init_err s bs s' = ⊥
  Sends (other e) s bs s' = ⊥

  pub record Sent (s : N) (bs : List ℕ) (out : Option ((ReturnCode × ℤ) × N)) : Type 0 where
    pub rc : ReturnCode
    pub count : ℤ
    pub s' : N
    pub returns : out ≡ some ((rc, count), s')
    pub sends : Sends rc s bs s'

  pub Sends-step :
      (rc : ReturnCode) (s t : N) (k : ℕ) (bs : List ℕ) (s' : N)
      → k ≤ length bs
      → st.sent fd t ≡ st.sent fd s ++ take k bs
      → Sends rc t (drop k bs) s'
      → Sends rc s bs s'
  Sends-step ok s t k bs s' h e r =
      r ∙ rw e (append_assoc (st.sent fd s) (take k bs) (drop k bs) ∙ rw (take-append-drop k bs))
  Sends-step failure s t k bs s' h e (u, j, hj, r, refused) = (
    u,
    k + j,
    omega (arith, length-drop k bs),
    r ∙ rw e (append_assoc (st.sent fd s) (take k bs) (take j (drop k bs)) ∙ rw (take-take j k bs)),
    refused,
  )
  Sends-step init_err s t k bs s' h e r = r
  Sends-step (other n) s t k bs s' h e r = r

  module _ (fuel : ℕ) (gone rest tail : List ℕ) (s : N) where
    abbrev len : ℕ
    len = length gone + length rest

    abbrev loop : Option ((ReturnCode × ℤ) × N)
    loop = send_loop os (suc fuel) fd (gone ++ (rest ++ tail)) len flags (length rest) s

    abbrev after : N
    after = (os.send fd rest flags s).1

    at : len - length rest ≡ length gone
    at = omega arith

    loop_stopped :
        (n : ℕ)
        → 0 < length rest
        → (os.send fd rest flags s).0 ≡ negsuc n
        → loop ≡ some ((failure, negsuc n), after)
    unfolding send_loop
    loop_stopped n h a = rw (nonzero (length rest) h, at, slice_behind gone rest tail, a, send_loop)

    loop_none :
        0 < length rest
        → (os.send fd rest flags s).0 ≡ pos 0
        → loop ≡ some ((failure, pos 0), after)
    unfolding send_loop
    loop_none h a = rw (nonzero (length rest) h, at, slice_behind gone rest tail, a, send_loop)

    loop_sent :
        (k : ℕ)
        → suc k ≤ length rest
        → length rest < 2 ^ 64
        → (os.send fd rest flags s).0 ≡ pos (suc k)
        → loop ≡ send_loop os fuel fd (gone ++ (rest ++ tail)) len flags (length rest - suc k) after
    unfolding send_loop
    loop_sent k h w a =
        let left : length rest - suc k ≡ sub64 (length rest) (suc k) = omega arith in
        rw left
          (rw (nonzero (length rest) (omega arith), at, slice_behind gone rest tail, a, send_loop))

  -- The same loop call, seen with the `k` bytes that have been sent among those that are gone.
  moved :
      (fuel k : ℕ) (gone rest tail : List ℕ) (t : N)
      → k ≤ length rest
      → send_loop os fuel fd
          ((gone ++ take k rest) ++ (drop k rest ++ tail))
          (length (gone ++ take k rest) + length (drop k rest))
          flags
          (length (drop k rest))
          t
        ≡ send_loop os fuel fd
            (gone ++ (rest ++ tail))
            (length gone + length rest)
            flags
            (length rest - k)
            t
  moved fuel k gone rest tail t h =
      let same : (gone ++ take k rest) ++ (drop k rest ++ tail) ≡ gone ++ (rest ++ tail) =
        append_assoc gone (take k rest) (drop k rest ++ tail)
        ∙ ap (λ l. gone ++ l)
            (sym (append_assoc (take k rest) (drop k rest) tail)
              ∙ ap (λ l. l ++ tail) (take-append-drop k rest)) in
      let total : length (gone ++ take k rest) + length (drop k rest) ≡ length gone + length rest =
        omega (arith, length-append gone (take k rest), length-take k rest, length-drop k rest) in
      rw (same, total, length-drop k rest)

  send_round :
      (fuel : ℕ) (gone rest tail : List ℕ) (s : N) (answer : ℤ)
      → (os.send fd rest flags s).0 ≡ answer
      → 0 < length rest
      → length rest < suc fuel
      → length rest < 2 ^ 64
      → ((k : ℕ)
          → length (drop k rest) < fuel
          → length (drop k rest) < 2 ^ 64
          → Sent (os.send fd rest flags s).1 (drop k rest) (
              send_loop os fuel fd
                ((gone ++ take k rest) ++ (drop k rest ++ tail))
                (length (gone ++ take k rest) + length (drop k rest))
                flags
                (length (drop k rest))
                (os.send fd rest flags s).1))
      → Sent s rest (
          send_loop os
            (suc fuel)
            fd
            (gone ++ (rest ++ tail))
            (length gone + length rest)
            flags
            (length rest)
            s)
  send_round fuel gone rest tail s (negsuc n) a h hf hw ih = record {
    rc = failure;
    count = negsuc n;
    s' = (os.send fd rest flags s).1;
    returns = loop_stopped fuel gone rest tail s n h a;
    sends = (
      s,
      0,
      h,
      sym (append-nil (st.sent fd s)),
      record { rest = rest; some_left = h; left = refl; took = inl (n, a) },
    );
  }
  send_round fuel gone rest tail s (pos zero) a h hf hw ih = record {
    rc = failure;
    count = pos 0;
    s' = (os.send fd rest flags s).1;
    returns = loop_none fuel gone rest tail s h a;
    sends = (
      s,
      0,
      h,
      sym (append-nil (st.sent fd s)),
      record { rest = rest; some_left = h; left = refl; took = inr a },
    );
  }
  send_round fuel gone rest tail s (pos (suc k)) a h hf hw ih =
      let within : suc k ≤ length rest = st.send_len fd rest flags (suc k) s a in
      let next = st.send_next fd rest flags (suc k) s a in
      let shorter = length-drop (suc k) rest in
      let later = ih (suc k) (omega (arith, shorter)) (omega (arith, shorter)) in
      record {
        rc = later.rc;
        count = later.count;
        s' = later.s';
        returns =
            loop_sent fuel gone rest tail s k within hw a
            ∙ sym (moved fuel (suc k) gone rest tail (os.send fd rest flags s).1 within)
            ∙ later.returns;
        sends =
            Sends-step later.rc s (os.send fd rest flags s).1 (suc k) rest later.s' within next
              later.sends;
      }

  send_loop_lem :
      (fuel : ℕ) (gone rest tail : List ℕ) (s : N)
      → length rest < fuel
      → length rest < 2 ^ 64
      → Sent s rest (
          send_loop os fuel fd
            (gone ++ (rest ++ tail))
            (length gone + length rest)
            flags
            (length rest)
            s)
  unfolding send_loop
  send_loop_lem zero gone rest tail s hf hw = absurd (omega arith)
  send_loop_lem (suc fuel) gone [] tail s hf hw = record {
    rc = ok;
    count = pos (length gone + 0);
    s' = s;
    returns = refl;
    sends = sym (append-nil (st.sent fd s));
  }
  send_loop_lem (suc fuel) gone (b ∷ bs) tail s hf hw =
      send_round fuel gone (b ∷ bs) tail s (os.send fd (b ∷ bs) flags s).0 refl (omega arith) hf hw
        (λ k.
          send_loop_lem fuel (gone ++ take k (b ∷ bs)) (drop k (b ∷ bs)) tail
            (os.send fd (b ∷ bs) flags s).1)

  -- For a buffer of at least `len` bytes, `len` below 2^64, on a stream socket, `socket_send_all`
  -- always returns OK or FAILURE. When it answers OK the socket has taken exactly the first `len`
  -- bytes of the buffer, in order, behind what it had taken before. FAILURE is only answered where
  -- there was something to send, and after a call of `send` that took nothing, in a state in which
  -- the socket had taken a proper prefix of these bytes.
  pub socket_send_all_lem :
      (buff : List ℕ) (len : ℕ) (s : N)
      → len ≤ length buff
      → len < 2 ^ 64
      → Sent s (take len buff) (socket_send_all os fd buff len flags s)
  unfolding socket_send_all
  socket_send_all_lem buff len s hl hw =
      let n : length (take len buff) ≡ len = omega (arith, length-take len buff) in
      let n0 : 0 + length (take len buff) ≡ len = omega (arith, length-take len buff) in
      rw (take-append-drop len buff, n0, n) at
        (send_loop_lem (suc len) [] (take len buff) (drop len buff) s (omega arith) (omega arith))
