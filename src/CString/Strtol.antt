-- ===== src/CString/Strtol.antt =====
-- The strtol of <stdlib.h> in base 0, for a text without white space or sign in front, and the
-- character tests of <ctype.h> in the C locale.
use remote_debug_for_intel_f.Prelude.{
  ℕ, ◌+◌, ◌-◌, ◌*◌, ◌%◌, ◌^◌, Bool, true, false, ◌&&◌, ◌||◌, List, [], ◌∷◌, Option, none, some, Run,
  ltb, leb, ◌==◌, if◌then◌else◌,
}
use remote_debug_for_intel_f.Prelude.Int.{ℤ, pos, negsuc}
use remote_debug_for_intel_f.CString.{advance, deref}

abbrev pub erange : ℕ
erange = 34

abbrev pub long_max : ℕ
long_max = 2 ^ 63 - 1

abbrev within : (low high c : ℕ) → Bool
within low high c = leb low c && leb c high

unfoldable pub isdigit : ℕ → Bool
isdigit c = within b'0' b'9' c

unfoldable pub isxdigit : ℕ → Bool
isxdigit c = within b'0' b'9' c || within b'a' b'f' c || within b'A' b'F' c

-- The value of a character as a digit; 16 is no digit.
unfoldable pub digit_value : ℕ → ℕ
digit_value c =
    if within b'0' b'9' c
    then c - b'0'
    else (if within b'a' b'f' c
        then c - b'a' + 10
        else (if within b'A' b'F' c then c - b'A' + 10 else 16))

-- The digits at the head of the string, behind digits of the value `acc`.
unfoldable pub scan_digits : (base : ℕ) → List ℕ → (acc : ℕ) → Option ℕ
scan_digits base [] acc = none
scan_digits base (c ∷ s) acc = elim (ltb (digit_value c) base) [
  | true ↦ scan_digits base s (acc * base + digit_value c)
  | false ↦ some acc
]

-- s[0] == '0' && (s[1] == 'x' || s[1] == 'X')
unfoldable pub is_hex_prefix : List ℕ → Option Bool
is_hex_prefix [] = none
is_hex_prefix (c ∷ s) = elim (c == b'0') [
  | true ↦ elim (deref s) [ none ↦ none | some d ↦ some (d == b'x' || d == b'X') ]
  | false ↦ some false
]

-- The number that the string stands for, without a bound.
unfoldable pub number_of : List ℕ → Option ℕ
number_of s = elim (is_hex_prefix s) [
  | none ↦ none
  | some true ↦ elim (advance s 2) [ none ↦ none | some digits ↦ scan_digits 16 digits 0 ]
  | some false ↦ elim (deref s) [
    | none ↦ none
    | some c ↦ scan_digits (if c == b'0' then 8 else 10) s 0
  ]
]

-- strtol (s, NULL, 0): errno is set on overflow, and left alone otherwise.
unfoldable pub strtol : List ℕ → Run ℕ ℕ
strtol s errno = elim (number_of s) [
  | none ↦ none
  | some n ↦ if leb n long_max then some (n, errno) else some (long_max, erange)
]

-- strrchr (s, c) for a c other than NUL: `some none` is NULL, else the string from the last place on.
unfoldable pub strrchr : List ℕ → (c : ℕ) → Option (Option (List ℕ))
strrchr [] c = none
strrchr (x ∷ s) c = elim (x == 0) [
  | true ↦ some none
  | false ↦ elim (strrchr s c) [
    | none ↦ none
    | some (some t) ↦ some (some t)
    | some none ↦ some (if x == c then some (x ∷ s) else none)
  ]
]

-- The white space of isspace, skipped.
unfoldable pub skip_space : List ℕ → Option (List ℕ)
skip_space [] = none
skip_space (c ∷ s) = elim (c == b' ' || within 9 13 c) [
  | true ↦ skip_space s
  | false ↦ some (c ∷ s)
]

-- The decimal digits at the head of the string, how many there are, and what is left.
decimal_digits : List ℕ → (acc count : ℕ) → Option (ℕ × ℕ × List ℕ)
unfolding isdigit
decimal_digits [] acc count = none
decimal_digits (c ∷ s) acc count = elim (isdigit c) [
  | true ↦ decimal_digits s (acc * 10 + (c - b'0')) (count + 1)
  | false ↦ some (acc, count, c ∷ s)
]

signed_digits : List ℕ → Option (Bool × ℕ × ℕ × List ℕ)
unfolding decimal_digits
signed_digits [] = none
signed_digits (c ∷ s) =
    let sign = c == b'-' || c == b'+' in
    elim (decimal_digits (if sign then s else c ∷ s) 0 0) [
      | none ↦ none
      | some (n, count, rest) ↦ some (c == b'-', n, count, rest)
    ]

-- strtoul (s, &endptr, 10), with errno: the number, and the string from endptr on.
unfoldable pub strtoul : List ℕ → Run ℕ (ℕ × List ℕ)
unfolding skip_space signed_digits
strtoul s errno = elim (skip_space s) [
  | none ↦ none
  | some t ↦ elim (signed_digits t) [
    | none ↦ none
    | some (negative, n, count, rest) ↦
        if count == 0
        then some ((0, s), errno)
        else if ltb n (2 ^ 64)
        then some (((if negative then (2 ^ 64 - n) % 2 ^ 64 else n), rest), errno)
        else some ((2 ^ 64 - 1, rest), erange)
  ]
]

-- atoi (s), as the conversion of strtol (s, NULL, 10) to `int`; a number outside `int` is undefined.
unfoldable pub atoi_digits : (negative : Bool) → List ℕ → Option ℤ
unfolding scan_digits
atoi_digits negative s = elim (scan_digits 10 s 0) [
  | none ↦ none
  | some n ↦
      if negative
      then (if leb n (2 ^ 31) then some (if n == 0 then pos 0 else negsuc (n - 1)) else none)
      else (if ltb n (2 ^ 31) then some (pos n) else none)
]

unfoldable pub atoi : List ℕ → Option ℤ
unfolding skip_space atoi_digits
atoi s = elim (skip_space s) [
  | none ↦ none
  | some [] ↦ none
  | some (c ∷ t) ↦
      if c == b'-'
      then atoi_digits true t
      else (if c == b'+' then atoi_digits false t else atoi_digits false (c ∷ t))
]
