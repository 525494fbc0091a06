-- ===== src/CString.antt =====
-- What the program uses of <string.h> and <stdio.h>: a `char *` is the list of the bytes from the
-- pointer to the end of its object. A function that runs off the object faults (`none`).
pub mod Decimal
pub mod Strtol
pub mod Digits
use Prim.Native.Char.{code}
use Prim.Native.String.{String}
use remote_debug_for_intel_f.Prelude.{
  ℕ, zero, suc, ◌+◌, Bool, true, false, ◌&&◌, List, [], ◌∷◌, ◌++◌, Option, none, some, ◌==◌,
  if◌then◌else◌,
}

-- The characters of a literal, and the literal with its NUL.
abbrev pub codes : String → List ℕ
codes String.[] = []
codes (String.◌∷◌ c s) = code c ∷ codes s

abbrev pub literal : String → List ℕ
literal s = codes s ++ (0 ∷ [])

-- strncmp (a, b, n) == 0
unfoldable pub strncmp_eq : List ℕ → List ℕ → ℕ → Option Bool
strncmp_eq a b zero = some true
strncmp_eq [] b (suc n) = none
strncmp_eq (x ∷ a) [] (suc n) = none
strncmp_eq (x ∷ a) (y ∷ b) (suc n) = elim (x == y) [
  | true ↦ elim (x == 0) [ true ↦ some true | false ↦ strncmp_eq a b n ]
  | false ↦ some false
]

-- Do the bytes `needle`, which hold no NUL, stand at the head of the string?
unfoldable pub starts_with : List ℕ → List ℕ → Option Bool
starts_with [] s = some true
starts_with (x ∷ needle) [] = none
starts_with (x ∷ needle) (y ∷ s) = elim (x == y) [
  | true ↦ starts_with needle s
  | false ↦ some false
]

-- strstr (s, needle): `some none` is NULL, else the string from the first place on.
unfoldable pub strstr : List ℕ → List ℕ → Option (Option (List ℕ))
unfolding starts_with
strstr [] needle = none
strstr (x ∷ s) needle = elim (starts_with needle (x ∷ s)) [
  | none ↦ none
  | some true ↦ some (some (x ∷ s))
  | some false ↦ elim (x == 0) [ true ↦ some none | false ↦ strstr s needle ]
]

-- strnlen (s, n)
unfoldable pub strnlen : List ℕ → ℕ → Option ℕ
strnlen s zero = some 0
strnlen [] (suc n) = none
strnlen (x ∷ s) (suc n) = elim (x == 0) [
  | true ↦ some 0
  | false ↦ elim (strnlen s n) [ none ↦ none | some k ↦ some (suc k) ]
]

-- p + n, which may reach the end of the object and not pass it.
unfoldable pub advance : List ℕ → ℕ → Option (List ℕ)
advance s zero = some s
advance [] (suc n) = none
advance (x ∷ s) (suc n) = advance s n

-- *p
unfoldable pub deref : List ℕ → Option ℕ
deref [] = none
deref (x ∷ s) = some x
