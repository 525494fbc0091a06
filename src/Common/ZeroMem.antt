-- ===== src/Common/ZeroMem.antt =====
-- zero_mem of streaming/src/intel_st_debug_if_common.c against its purpose.
use native.Mathlib.Nat.{mod-eq_of_lt}
use remote_debug_for_intel_f.Prelude.{
  ℕ, zero, suc, ◌+◌, ◌*◌, ◌/◌, ◌%◌, ◌≤◌, ◌<◌, ◌≡◌, ◌≢◌, refl, ap, sym, ◌∙◌, inl, inr, List, [], ◌∷◌,
  ◌++◌, some, arith, length, replicate, drop, ltb, Bool-cases, ltb→lt, lt→ltb, le→ltb, blit,
  blit_behind, append_assoc, length-append, length-replicate, length-drop, drop-drop,
}
use remote_debug_for_intel_f.Common.{zero_loop, zero_mem}

replicate-append : (a b x : ℕ) → replicate a x ++ replicate b x ≡ replicate (a + b) x
replicate-append zero b x = ap (λ n. replicate n x) (omega arith)
replicate-append (suc a) b x =
    ap (λ l. x ∷ l) (replicate-append a b x)
    ∙ ap (λ n. replicate n x) {x = suc (a + b)} {y = suc a + b} (omega arith)

-- One more block in front of the rest.
regroup :
    (rounds width : ℕ) (filled room : List ℕ)
    → (filled ++ replicate width 0)
        ++ (replicate (rounds * width) 0 ++ drop (rounds * width) (drop width room))
      ≡ filled ++ (replicate (suc rounds * width) 0 ++ drop (suc rounds * width) room)
regroup rounds width filled room =
    let e : width + rounds * width ≡ suc rounds * width = ground arith in
    let rest : List ℕ = drop (rounds * width) (drop width room) in
    append_assoc filled (replicate width 0) (replicate (rounds * width) 0 ++ rest)
    ∙ ap (λ l. filled ++ l)
        (sym (append_assoc (replicate width 0) (replicate (rounds * width) 0) rest)
          ∙ rw
              (replicate-append width (rounds * width) 0, drop-drop (rounds * width) width room, e))

zero_block :
    (width : ℕ) (filled room : List ℕ)
    → width ≤ length room
    → blit (filled ++ room) (length filled) (replicate width 0)
      ≡ some ((filled ++ replicate width 0) ++ drop width room)
zero_block width filled room h =
    let wide = length-replicate {A = ℕ} width 0 in
    blit_behind filled room (replicate width 0) (omega (arith, wide))
    ∙ ap (λ n. some ((filled ++ replicate width 0) ++ drop n room)) wide

zero_loop_step :
    (rounds width : ℕ) (filled room : List ℕ)
    → width ≤ length room
    → zero_loop (suc rounds) (length filled) width (filled ++ room)
      ≡ zero_loop rounds
          (length (filled ++ replicate width 0))
          width
          ((filled ++ replicate width 0) ++ drop width room)
unfolding zero_loop
zero_loop_step rounds width filled room h =
    let e : length filled + width ≡ length (filled ++ replicate width 0) =
      omega (arith, length-append filled (replicate width 0), length-replicate {A = ℕ} width 0) in
    rw (zero_block width filled room h, zero_loop, e)

zero_loop_lem :
    (rounds width : ℕ) (filled room : List ℕ)
    → rounds * width ≤ length room
    → zero_loop rounds (length filled) width (filled ++ room)
      ≡ some (filled ++ (replicate (rounds * width) 0 ++ drop (rounds * width) room))
unfolding zero_loop
zero_loop_lem zero width filled room h = let e : 0 * width ≡ 0 = omega arith in rw e
zero_loop_lem (suc rounds) width filled room h =
    let e : width + rounds * width ≡ suc rounds * width = ground arith in
    zero_loop_step rounds width filled room (omega arith)
    ∙ zero_loop_lem rounds width (filled ++ replicate width 0) (drop width room)
        (omega (arith, length-drop width room))
    ∙ ap some (regroup rounds width filled room)

-- From the start of the object.
zero_from_start :
    (n width : ℕ) (a : List ℕ)
    → n * width ≤ length a
    → zero_loop n 0 width a ≡ some (replicate (n * width) 0 ++ drop (n * width) a)
zero_from_start n width a h = zero_loop_lem n width [] a h

-- The bytes behind the whole words.
zero_tail :
    (k r n : ℕ) (a : List ℕ)
    → k + r ≡ n
    → n ≤ length a
    → zero_loop r k 1 (replicate k 0 ++ drop k a) ≡ some (replicate n 0 ++ drop n a)
zero_tail k r n a e h =
    let wide = length-replicate {A = ℕ} k 0 in
    let one : r * 1 ≡ r = omega arith in
    ap (λ i. zero_loop r i 1 (replicate k 0 ++ drop k a)) (sym wide)
    ∙ zero_loop_lem r 1 (replicate k 0) (drop k a) (omega (arith, length-drop k a))
    ∙ ap some (
        sym (append_assoc (replicate k 0) (replicate (r * 1) 0) (drop (r * 1) (drop k a)))
        ∙ rw (one, replicate-append k r 0, drop-drop r k a, e))

words_and_bytes :
    (n : ℕ) (a : List ℕ) → 8 < n → n ≤ length a → zero_mem a n ≡ some (replicate n 0 ++ drop n a)
unfolding zero_mem
words_and_bytes n a l h =
    rw (lt→ltb 8 n l, zero_from_start (n / 8) 8 a (omega (arith, h)))
      (zero_tail (n / 8 * 8) (n % 8) n a (omega arith) h)

bytes_only :
    (n : ℕ) (a : List ℕ) → n < 8 → n ≤ length a → zero_mem a n ≡ some (replicate n 0 ++ drop n a)
unfolding zero_mem
bytes_only n a l h =
    let e : n % 8 ≡ n = mod-eq_of_lt l in
    rw (le→ltb 8 n (omega arith), e) (zero_tail 0 n n a (omega arith) h)

-- `zero_mem` of `n` bytes of an object that has them zeroes those bytes and leaves the rest, for
-- every `n` other than 8; and of exactly 8 bytes it zeroes none.
pub zero_mem_lem :
    (a : List ℕ) (n : ℕ)
    → n ≤ length a
    → (n ≢ 8 → zero_mem a n ≡ some (replicate n 0 ++ drop n a)) × (zero_mem a 8 ≡ some a)
unfolding zero_mem zero_loop
zero_mem_lem a n h = (
  λ ne. elim (Bool-cases (ltb 8 n)) [
    | inl more ↦ words_and_bytes n a (ltb→lt 8 n more) h
    | inr less ↦ bytes_only n a (ground (arith, ne)) h
  ],
  refl,
)
