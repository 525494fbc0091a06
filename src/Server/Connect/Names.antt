-- ===== src/Server/Connect/Names.antt =====
-- A received text against the one that is expected, as acknowledge_handle of Server/Connect compares
-- them.
use mathlib.Core.Bool.{true≢false}
use remote_debug_for_intel_f.Prelude.{
  ℕ, zero, suc, ◌<◌, ◌≡◌, refl, sym, ap, subst, ◌∙◌, inl, inr, true, false, Bool, List, [], ◌∷◌,
  ◌++◌, some, arith, ◌==◌, ==_iff, length, ◌||◌, Bool-cases,
}
use remote_debug_for_intel_f.CString.{strncmp_eq}
use remote_debug_for_intel_f.Sockets.{has_null}

-- The bytes start with the text and its NUL.
abbrev pub Names : (text bs : List ℕ) → Type 0
Names text bs = (rest : List ℕ) × (bs ≡ text ++ (0 ∷ rest))

first : List ℕ → ℕ
first [] = 0
first (x ∷ xs) = x

others : List ℕ → List ℕ
others [] = []
others (x ∷ xs) = xs

-- What a comparison tells of the bytes.
abbrev pub Tells : (b : Bool) (text bs : List ℕ) → Type 0
Tells true text bs = Names text bs
Tells false text bs = ¬ Names text bs

Tells-step : (b : Bool) (x : ℕ) (text bs : List ℕ) → Tells b text bs → Tells b (x ∷ text) (x ∷ bs)
unfolding others
Tells-step true x text bs (rest, e) = (rest, ap (λ l. x ∷ l) e)
Tells-step false x text bs h = λ (rest, e). h (rest, ap others e)

differ : (x y : ℕ) (text bs rest : List ℕ) → (x == y) ≡ false → (x ∷ bs) ≡ (y ∷ text) → ⊥
unfolding first
differ x y text bs rest h e = true≢false (sym ((==_iff x y).1 (ap first e)) ∙ h)

apart :
    (y : ℕ) (text : List ℕ)
    → has_null (y ∷ text) ≡ false
    → ((y == 0) ≡ false) × (has_null text ≡ false)
apart y text h = elim (Bool-cases (y == 0)) [
  | inl e ↦ absurd (true≢false (ap (λ b. b || has_null text) (sym e) ∙ h))
  | inr e ↦ (e, ap (λ b. b || has_null text) (sym e) ∙ h)
]

strncmp-next :
    (x y n : ℕ) (a b : List ℕ)
    → (x == y) ≡ true
    → (x == 0) ≡ false
    → strncmp_eq (x ∷ a) (y ∷ b) (suc n) ≡ strncmp_eq a b n
unfolding strncmp_eq
strncmp-next x y n a b e z = rw (strncmp_eq, e, z) refl

-- strncmp of received bytes, with a NUL among them, against a text with its NUL in the first `n`.
pub strncmp-text :
    (text bs room tail : List ℕ) (n : ℕ)
    → has_null text ≡ false
    → has_null bs ≡ true
    → length text < n
    → (b : Bool) × (strncmp_eq (bs ++ room) (text ++ (0 ∷ tail)) n ≡ some b) × Tells b text bs
unfolding strncmp_eq
strncmp-text text bs room tail zero ht hb h = absurd (omega arith)
strncmp-text text [] room tail (suc n) ht hb h = absurd (true≢false (sym hb))
strncmp-text [] (x ∷ bs) room tail (suc n) ht hb h = elim (Bool-cases (x == 0)) [
  | inl e ↦ (true, rw (strncmp_eq, e, e), (bs, ap (λ y. y ∷ bs) ((==_iff x 0).0 e)))
  | inr e ↦ (false, rw (strncmp_eq, e), λ (rest, same). differ x 0 rest bs rest e same)
]
strncmp-text (y ∷ text) (x ∷ bs) room tail (suc n) ht hb h = elim (Bool-cases (x == y)) [
  | inl e ↦
      let same : x ≡ y = (==_iff x y).0 e in
      let (no_null, ht') = apart y text ht in
      let no_null' : (x == 0) ≡ false = ap (λ z. z == 0) same ∙ no_null in
      let hb' : has_null bs ≡ true = ap (λ b. b || has_null bs) (sym no_null') ∙ hb in
      let (b, runs, tells) = strncmp-text text bs room tail n ht' hb' (omega arith) in
      (
        b,
        strncmp-next x y n (bs ++ room) (text ++ (0 ∷ tail)) e no_null' ∙ runs,
        subst (λ z. Tells b (z ∷ text) (x ∷ bs)) same (Tells-step b x text bs tells),
      )
  | inr e ↦
      (false, rw (strncmp_eq, e), λ (rest, same). differ x y (text ++ (0 ∷ rest)) bs rest e same)
]

-- A named text has its NUL among the bytes.
null_behind : (text rest : List ℕ) → has_null (text ++ (0 ∷ rest)) ≡ true
null_behind [] rest = refl
null_behind (x ∷ text) rest = elim (Bool-cases (x == 0)) [
  | inl e ↦ ap (λ b. b || has_null (text ++ (0 ∷ rest))) e
  | inr e ↦ ap (λ b. b || has_null (text ++ (0 ∷ rest))) e ∙ null_behind text rest
]

pub without_null : (text bs : List ℕ) → has_null bs ≡ false → ¬ Names text bs
without_null text bs h (rest, e) = true≢false (sym (ap has_null e ∙ null_behind text rest) ∙ h)
