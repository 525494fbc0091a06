-- ===== src/Common/Handle.antt =====
-- The handle messages of streaming/src/intel_st_debug_if_common.c, written and read.
use remote_debug_for_intel_f.Prelude.{
  ℕ, zero, suc, ◌+◌, ◌-◌, ◌^◌, ◌≤◌, ◌<◌, true, false, List, [], ◌∷◌, ◌++◌, some, ◌≡◌, refl, sym, ap,
  ◌∙◌, arith, leb, ◌==◌, length, length-append, take, drop, append_assoc, blit_behind, lt→ltb, inl,
  inr, zero_or_more,
}
use remote_debug_for_intel_f.Prelude.Int.{pos}
use remote_debug_for_intel_f.CString.{codes, strstr, starts_with, advance}
use remote_debug_for_intel_f.CString.Decimal.{decimal, digits_onto, snprintf}
use remote_debug_for_intel_f.CString.Strtol.{atoi, atoi_digits, skip_space, scan_digits}
use remote_debug_for_intel_f.CString.Digits.{
  scan-digits_onto, leading_digit, decimal-append, last_digit, end_of_scan,
}
use remote_debug_for_intel_f.Common.{generate_expected_handle_message, parse_handle_id}

-- A name that holds no NUL, and in front of a blank no HANDLE=.
unfoldable pub IsName : List ℕ → Type 0
IsName [] = Unit
IsName (c ∷ s) =
    ((c == 0) ≡ false)
    × ((rest : List ℕ)
        → starts_with (codes "HANDLE=") ((c ∷ s) ++ (codes " HANDLE=" ++ rest)) ≡ some false)
    × IsName s

strstr-name :
    (name rest : List ℕ)
    → IsName name
    → strstr (name ++ (codes " HANDLE=" ++ rest)) (codes "HANDLE=")
      ≡ some (some (codes "HANDLE=" ++ rest))
unfolding strstr starts_with IsName
strstr-name [] rest h = refl
strstr-name (c ∷ s) rest (e, no_match, h) = rw (strstr, no_match rest, e) (strstr-name s rest h)

-- A digit is neither white space nor a sign.
atoi-digit :
    (d n : ℕ) (s : List ℕ)
    → d < 10
    → scan_digits 10 ((b'0' + d) ∷ s) 0 ≡ some n
    → n < 2 ^ 31
    → atoi ((b'0' + d) ∷ s) ≡ some (pos n)
unfolding atoi skip_space atoi_digits
atoi-digit d n s h e small =
    let space : (b'0' + d == b' ') ≡ false = ground arith in
    let above : leb 9 (b'0' + d) ≡ true = ground arith in
    let control : leb (b'0' + d) 13 ≡ false = ground arith in
    let minus : (b'0' + d == b'-') ≡ false = ground arith in
    let plus : (b'0' + d == b'+') ≡ false = ground arith in
    rw (atoi, skip_space, space, above, control)
      (rw (minus, plus) (rw (atoi_digits, e, lt→ltb n (2 ^ 31) small) refl))

atoi-decimal : (n : ℕ) (rest : List ℕ) → n < 2 ^ 31 → atoi (decimal n ++ 0 ∷ rest) ≡ some (pos n)
atoi-decimal n rest small =
    let value : scan_digits 10 (digits_onto 20 n (0 ∷ rest)) 0 ≡ some n =
      scan-digits_onto 20 n (0 ∷ rest) (omega arith) ∙ end_of_scan rest n in
    rw (decimal-append n (0 ∷ rest)) (elim (zero_or_more n) [
      | inl e ↦
          let first : digits_onto 20 n (0 ∷ rest) ≡ (b'0' + n) ∷ 0 ∷ rest =
            last_digit 19 n (0 ∷ rest) (lt→ltb n 10 (omega arith)) in
          rw first (
            atoi-digit n n (0 ∷ rest) (omega arith)
              (ap (λ t. scan_digits 10 t 0) (sym first) ∙ value) small)
      | inr p ↦
          let (d, dp, ds, s, e) = leading_digit 20 n (0 ∷ rest) (omega arith) p in
          rw e (atoi-digit d n s ds (ap (λ t. scan_digits 10 t 0) (sym e) ∙ value) small)
    ])

parse-message :
    (name rest : List ℕ) (handle : ℕ)
    → IsName name
    → handle < 2 ^ 31
    → parse_handle_id (name ++ (codes " HANDLE=" ++ (decimal handle ++ 0 ∷ rest)))
      ≡ some (pos handle)
unfolding parse_handle_id advance
parse-message name rest handle h small =
    rw (parse_handle_id, strstr-name name (decimal handle ++ 0 ∷ rest) h)
      (atoi-decimal handle rest small)

take_all : (n : ℕ) (xs : List ℕ) → length xs ≤ n → take n xs ≡ xs
take_all zero [] h = refl
take_all zero (x ∷ xs) h = absurd (omega arith)
take_all (suc n) [] h = refl
take_all (suc n) (x ∷ xs) h = ap (λ l. x ∷ l) (take_all n xs (omega arith))

-- A text that fits is written whole, with its NUL.
pub snprintf-whole :
    (buff : List ℕ) (size : ℕ) (text : List ℕ)
    → length text < size
    → size ≤ length buff
    → snprintf buff size text ≡ some ((text ++ (0 ∷ [])) ++ drop (length (text ++ (0 ∷ []))) buff)
unfolding snprintf
snprintf-whole buff size text fits room =
    let some_room : (size == 0) ≡ false = ground arith in
    rw (snprintf, some_room, take_all (size - 1) text (omega arith))
      (blit_behind [] buff (text ++ (0 ∷ [])) (omega (arith, length-append text (0 ∷ []))))

regroup : (n h d l : List ℕ) → ((n ++ (h ++ d)) ++ (0 ∷ [])) ++ l ≡ n ++ (h ++ (d ++ 0 ∷ l))
regroup n h d l = simp append_assoc

-- For a socket name without a NUL, behind which HANDLE= does not begin before the blank, a handle
-- below 2^31, and a buffer with room for the text and its NUL: generate_expected_handle_message
-- succeeds, and parse_handle_id reads the handle back from the buffer.
pub parse_handle_id-generate_expected_handle_message :
    (buff : List ℕ) (buff_size : ℕ) (sock_name : List ℕ) (handle : ℕ)
    → IsName sock_name
    → handle < 2 ^ 31
    → length (sock_name ++ (codes " HANDLE=" ++ decimal handle)) < buff_size
    → buff_size ≤ length buff
    → (buff' : List ℕ) × (generate_expected_handle_message buff buff_size sock_name handle
        ≡ some buff')
      × (parse_handle_id buff' ≡ some (pos handle))
unfolding generate_expected_handle_message
parse_handle_id-generate_expected_handle_message buff buff_size sock_name handle name small fits
      room =
    let text = sock_name ++ (codes " HANDLE=" ++ decimal handle) in
    let left = drop (length (text ++ (0 ∷ []))) buff in
    (
      (text ++ (0 ∷ [])) ++ left,
      snprintf-whole buff buff_size text fits room,
      ap parse_handle_id (regroup sock_name (codes " HANDLE=") (decimal handle) left)
          ∙ parse-message sock_name left handle name small,
    )
