-- ===== src/CString/Digits.antt =====
-- The decimal text of a number, read digit by digit.
use remote_debug_for_intel_f.Prelude.{
  ℕ, zero, suc, ◌+◌, ◌*◌, ◌/◌, ◌%◌, ◌^◌, ◌<◌, true, false, List, [], ◌∷◌, ◌++◌, some, ◌≡◌, refl, ap,
  ◌∙◌, arith, ltb, ◌==◌, lt→ltb, inl, inr, Bool-cases, ltb→lt,
}
use native.Mathlib.Nat.{pow-succ'}
use remote_debug_for_intel_f.CString.Decimal.{decimal, digits_onto}
use remote_debug_for_intel_f.CString.Strtol.{isdigit, scan_digits, digit_value}

-- A decimal digit as a character.
digit_value-char : (d : ℕ) → d < 10 → digit_value (b'0' + d) ≡ d
unfolding digit_value
digit_value-char d h = ground arith

pub isdigit-char : (d : ℕ) → d < 10 → isdigit (b'0' + d) ≡ true
unfolding isdigit
isdigit-char d h = ground arith

pub char_not_nul : (d : ℕ) → (b'0' + d == 0) ≡ false
char_not_nul d = ground arith

scan_digit :
    (d : ℕ) (s : List ℕ) (acc : ℕ)
    → d < 10
    → scan_digits 10 ((b'0' + d) ∷ s) acc ≡ scan_digits 10 s (acc * 10 + d)
unfolding scan_digits
scan_digit d s acc h =
    rw (scan_digits, digit_value-char d h, lt→ltb d 10 h)
      (ap (λ k. scan_digits 10 s (acc * 10 + k)) (digit_value-char d h))

-- The last digit, or a digit in front of which others follow.
pub last_digit :
    (fuel n : ℕ) (tail : List ℕ)
    → ltb n 10 ≡ true
    → digits_onto (suc fuel) n tail ≡ (b'0' + n) ∷ tail
unfolding digits_onto
last_digit fuel n tail h = rw (digits_onto, h) refl

pub more_digits :
    (fuel n : ℕ) (tail : List ℕ)
    → ltb n 10 ≡ false
    → digits_onto (suc fuel) n tail ≡ digits_onto fuel (n / 10) ((b'0' + n % 10) ∷ tail)
unfolding digits_onto
more_digits fuel n tail h = rw (digits_onto, h) refl

pub scan-digits_onto :
    (fuel n : ℕ) (tail : List ℕ)
    → n < 10 ^ fuel
    → scan_digits 10 (digits_onto fuel n tail) 0 ≡ scan_digits 10 tail n
unfolding digits_onto
scan-digits_onto zero n tail h = ap (scan_digits 10 tail) (omega arith)
scan-digits_onto (suc fuel) n tail h = elim (Bool-cases (ltb n 10)) [
  | inl small ↦
      rw (last_digit fuel n tail small)
        (scan_digit n tail 0 (ltb→lt n 10 small) ∙ ap (scan_digits 10 tail) (omega arith))
  | inr big ↦ rw (more_digits fuel n tail big) (
      scan-digits_onto fuel (n / 10) ((b'0' + n % 10) ∷ tail) (omega (arith, h, pow-succ' 10 fuel))
      ∙ scan_digit (n % 10) tail (n / 10) (omega arith)
      ∙ ap (scan_digits 10 tail) (omega arith))
]

ltb_false→pos : (n : ℕ) → 0 < n → ltb n 10 ≡ false → 0 < n / 10
ltb_false→pos n p h = ground arith

-- The first character is the first digit, which is not 0.
pub leading_digit :
    (fuel n : ℕ) (tail : List ℕ)
    → n < 10 ^ fuel
    → 0 < n
    → (d : ℕ) × (0 < d) × (d < 10) × (s : List ℕ) × (digits_onto fuel n tail ≡ (b'0' + d) ∷ s)
unfolding digits_onto
leading_digit zero n tail h p = absurd (omega arith)
leading_digit (suc fuel) n tail h p = elim (Bool-cases (ltb n 10)) [
  | inl small ↦ (n, p, ltb→lt n 10 small, tail, last_digit fuel n tail small)
  | inr big ↦
      let (d, dp, ds, s, e) =
        leading_digit fuel (n / 10) ((b'0' + n % 10) ∷ tail) (omega (arith, h, pow-succ' 10 fuel))
          (ltb_false→pos n p big) in
      (d, dp, ds, s, more_digits fuel n tail big ∙ e)
]

digits_onto-append :
    (fuel n : ℕ) (tail rest : List ℕ)
    → digits_onto fuel n tail ++ rest ≡ digits_onto fuel n (tail ++ rest)
unfolding digits_onto
digits_onto-append zero n tail rest = refl
digits_onto-append (suc fuel) n tail rest = elim (Bool-cases (ltb n 10)) [
  | inl small ↦ rw (last_digit fuel n tail small, last_digit fuel n (tail ++ rest) small) refl
  | inr big ↦
      rw (more_digits fuel n tail big, more_digits fuel n (tail ++ rest) big)
        (digits_onto-append fuel (n / 10) ((b'0' + n % 10) ∷ tail) rest)
]

pub end_of_scan : (rest : List ℕ) (n : ℕ) → scan_digits 10 (0 ∷ rest) n ≡ some n
unfolding scan_digits digit_value
end_of_scan rest n = refl

pub decimal-append : (n : ℕ) (rest : List ℕ) → decimal n ++ rest ≡ digits_onto 20 n rest
unfolding decimal
decimal-append n rest = digits_onto-append 20 n [] rest
