-- ===== src/Prelude/Fault.antt =====
-- State passing with faults: `none` stands for undefined behaviour of the C code, such as an access
-- outside an object or through a null pointer. Errors that the code handles are values.
use mathlib.Core.Option.{Option, none, some}

abbrev pub Run : Type 0 → Type 0 → Type 0
Run S A = S → Option (A × S)

abbrev pub pure : {S A : Type 0} → A → Run S A
pure a s = some (a, s)

abbrev pub fault : {S A : Type 0} → Run S A
fault s = none

infixl 5 ◌>>=◌ ◌>>◌
abbrev pub ◌>>=◌ : {S A B : Type 0} → Run S A → (A → Run S B) → Run S B
◌>>=◌ m f s = elim (m s) [ none ↦ none | some (a, s') ↦ f a s' ]

abbrev pub ◌>>◌ : {S B : Type 0} → Run S (Unit {0}) → Run S B → Run S B
m >> k = m >>= λ _. k

abbrev pub get : {S : Type 0} → Run S S
get s = some (s, s)

abbrev pub put : {S : Type 0} → S → Run S (Unit {0})
put s _ = some (tt, s)

-- An operation that cannot fault.
abbrev pub total : {S A : Type 0} → (S → A × S) → Run S A
total f s = some (f s)
