-- ===== src/Uio/Args/Numbers.antt =====
-- The numbers among the options, protodrv_api/uio/src/intel_fpga_platform_api_uio.c.
use remote_debug_for_intel_f.Prelude.{
  ℕ, zero, suc, ◌+◌, ◌/◌, ◌%◌, ◌^◌, ◌≤◌, ◌<◌, ◌≢◌, true, false, List, ◌∷◌, ◌++◌, some, ◌≡◌, refl,
  sym, ap, ◌∙◌, arith, ltb, ◌==◌, le→leb, lt→ltb, inl, inr, Bool-cases, ltb→lt, zero_or_more,
}
use remote_debug_for_intel_f.CString.{advance, deref}
use remote_debug_for_intel_f.CString.Decimal.{decimal, digits_onto}
use remote_debug_for_intel_f.CString.Strtol.{
  isdigit, is_hex_prefix, strtol, erange, number_of, scan_digits, digit_value, long_max,
}
use remote_debug_for_intel_f.Uio.Args.{uio_parse_integer_arg, is_all_digit}
use remote_debug_for_intel_f.CString.Digits.{
  isdigit-char, last_digit, more_digits, scan-digits_onto, leading_digit, end_of_scan,
  decimal-append, char_not_nul,
}

good_digit :
    (d : ℕ) (s : List ℕ) → d < 10 → is_all_digit isdigit ((b'0' + d) ∷ s) ≡ is_all_digit isdigit s
unfolding is_all_digit
good_digit d s h = rw (is_all_digit, char_not_nul d, isdigit-char d h) refl

is_all_digit-digits_onto :
    (fuel n : ℕ) (tail : List ℕ)
    → is_all_digit isdigit (digits_onto fuel n tail) ≡ is_all_digit isdigit tail
unfolding digits_onto is_all_digit
is_all_digit-digits_onto zero n tail = refl
is_all_digit-digits_onto (suc fuel) n tail = elim (Bool-cases (ltb n 10)) [
  | inl small ↦ rw (last_digit fuel n tail small) (good_digit n tail (ltb→lt n 10 small))
  | inr big ↦ rw (more_digits fuel n tail big) (
      is_all_digit-digits_onto fuel (n / 10) ((b'0' + n % 10) ∷ tail)
      ∙ good_digit (n % 10) tail (omega arith))
]

-- A text that begins with a digit other than 0 is decimal.
decimal_number :
    (d : ℕ) (s : List ℕ) (errno : ℕ)
    → 0 < d
    → d < 10
    → (is_hex_prefix ((b'0' + d) ∷ s) ≡ some false)
      × (number_of ((b'0' + d) ∷ s) ≡ scan_digits 10 ((b'0' + d) ∷ s) 0)
unfolding is_hex_prefix number_of deref
decimal_number d s errno p h =
    let e : (b'0' + d == b'0') ≡ false = ground arith in
    (rw (is_hex_prefix, e) refl, rw (number_of, is_hex_prefix, e) (rw (deref, e) refl))

end_of_digits : (rest : List ℕ) → is_all_digit isdigit (0 ∷ rest) ≡ some true
unfolding is_all_digit
end_of_digits rest = refl

-- A text of decimal digits, taken as a number.
parse_digits :
    (d : ℕ) (s : List ℕ) (n errno : ℕ)
    → 0 < d
    → d < 10
    → is_all_digit isdigit ((b'0' + d) ∷ s) ≡ some true
    → scan_digits 10 ((b'0' + d) ∷ s) 0 ≡ some n
    → n ≤ long_max
    → (errno == erange) ≡ false
    → uio_parse_integer_arg ((b'0' + d) ∷ s) errno ≡ some (n, errno)
unfolding uio_parse_integer_arg strtol advance
parse_digits d s n errno p h digits scan small fresh =
    let (decimal, number) = decimal_number d s errno p h in
    rw (uio_parse_integer_arg, decimal, digits)
      (rw (strtol, number) (rw (scan, le→leb n long_max small, fresh) refl))

parse_zero :
    (rest : List ℕ) (errno : ℕ)
    → (errno == erange) ≡ false
    → uio_parse_integer_arg (b'0' ∷ 0 ∷ rest) errno ≡ some (0, errno)
unfolding uio_parse_integer_arg strtol advance is_hex_prefix number_of deref is_all_digit isdigit
    scan_digits digit_value
parse_zero rest errno fresh = rw fresh refl

parse_printed :
    (fuel n errno : ℕ) (rest : List ℕ)
    → n < 10 ^ suc fuel
    → n ≤ long_max
    → (errno == erange) ≡ false
    → uio_parse_integer_arg (digits_onto (suc fuel) n (0 ∷ rest)) errno ≡ some (n, errno)
parse_printed fuel n errno rest h small fresh = elim (zero_or_more n) [
  | inl e ↦
      let first : digits_onto (suc fuel) n (0 ∷ rest) ≡ b'0' ∷ 0 ∷ rest =
        last_digit fuel n (0 ∷ rest) (lt→ltb n 10 (omega arith))
        ∙ ap (λ d. d ∷ 0 ∷ rest) {x = b'0' + n} {y = b'0'} (omega arith) in
      rw first (parse_zero rest errno fresh ∙ ap (λ k. some (k, errno)) (sym e))
  | inr p ↦
      let (d, dp, ds, s, e) = leading_digit (suc fuel) n (0 ∷ rest) h p in
      rw e (
        parse_digits d s n errno dp ds
          (ap (is_all_digit isdigit) (sym e)
            ∙ is_all_digit-digits_onto (suc fuel) n (0 ∷ rest)
            ∙ end_of_digits rest)
          (ap (λ t. scan_digits 10 t 0) (sym e)
            ∙ scan-digits_onto (suc fuel) n (0 ∷ rest) h
            ∙ end_of_scan rest n)
          small fresh)
]

-- The decimal text of a number up to LONG_MAX is parsed back as that number, with errno unchanged,
-- where errno is not ERANGE at the start.
pub uio_parse_integer_arg-decimal :
    (n errno : ℕ) (rest : List ℕ)
    → n ≤ long_max
    → errno ≢ erange
    → uio_parse_integer_arg (decimal n ++ 0 ∷ rest) errno ≡ some (n, errno)
uio_parse_integer_arg-decimal n errno rest small fresh =
    rw (decimal-append n (0 ∷ rest))
      (parse_printed 19 n errno rest (omega arith) small (ground arith))

-- Where errno is ERANGE at the start, `uio_parse_integer_arg` gives 0 for every text for which it
-- returns, and errno stays.
pub uio_parse_integer_arg-stale_errno :
    (optarg : List ℕ) (value errno : ℕ)
    → uio_parse_integer_arg optarg erange ≡ some (value, errno)
    → (value ≡ 0) × (errno ≡ erange)
unfolding uio_parse_integer_arg strtol
uio_parse_integer_arg-stale_errno optarg value errno h = ground arith
