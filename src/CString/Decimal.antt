-- ===== src/CString/Decimal.antt =====
-- The "%d" and "%ld" of snprintf for a number that is not negative, and snprintf's cut-off.
use remote_debug_for_intel_f.Prelude.{
  ℕ, zero, suc, ◌+◌, ◌-◌, ◌/◌, ◌%◌, true, false, List, [], ◌∷◌, ◌++◌, Option, some, ltb, ◌==◌,
  if◌then◌else◌, take, blit,
}

-- Digits in front of `tail`; a number of `fuel` digits at most.
unfoldable pub digits_onto : (fuel n : ℕ) → List ℕ → List ℕ
digits_onto zero n tail = tail
digits_onto (suc fuel) n tail = elim (ltb n 10) [
  | true ↦ (b'0' + n) ∷ tail
  | false ↦ digits_onto fuel (n / 10) ((b'0' + n % 10) ∷ tail)
]

-- A 64-bit number has 20 digits at most.
unfoldable pub decimal : ℕ → List ℕ
unfolding digits_onto
decimal n = digits_onto 20 n []

-- snprintf (buff, size, text): at most `size - 1` characters and a NUL, over the head of `buff`.
unfoldable pub snprintf : (buff : List ℕ) (size : ℕ) (text : List ℕ) → Option (List ℕ)
snprintf buff size text =
    if size == 0 then some buff else blit buff 0 (take (size - 1) text ++ (0 ∷ []))
