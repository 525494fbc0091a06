-- ===== src/Server/Connect/Gives.antt =====
-- What a run of Server/Connect answers, if it returns: rules for each way to build one.
use remote_debug_for_intel_f.Prelude.{
  ◌≡◌, refl, ap, subst, inl, inr, Bool, true, false, Option, none, some, Run, ◌>>=◌, ◌>>◌, pure,
  get, if◌then◌else◌, Option-cases,
}
use remote_debug_for_intel_f.Server.Keeps.{some-none}

module _ {S A : Type 0} (Q : A → Type 0) where
  -- What `f` answers, if it returns, has `Q`.
  pub record Gives (f : Run S A) : Type 0 where
    pub at : (s : S) (a : A) (s' : S) → f s ≡ some (a, s') → Q a

answer_of : {S A : Type 0} → A → Option (A × S) → A
answer_of a none = a
answer_of a (some (b, s)) = b

module _ {S A : Type 0} {Q : A → Type 0} where
  pub Gives-pure : (a : A) → Q a → Gives {S = S} Q (pure a)
  unfolding answer_of
  Gives-pure a q = record { at = λ s b s' e. subst Q (ap (answer_of a) e) q }

  -- The second run may rely on what the first one answers.
  pub Gives-after :
      {B : Type 0} (R : B → Type 0) (m : Run S B) (f : B → Run S A)
      → Gives R m
      → ((b : B) → R b → Gives Q (f b))
      → Gives Q (m >>= f)
  Gives-after R m f gm gf = record {
    at = λ s a s'' e. elim (Option-cases (m s)) [
      | inl fails ↦ absurd (some-none (rw (fails, ◌>>=◌) at e))
      | inr ((b, s'), here) ↦ (gf b (gm.at s b s' here)).at s' a s'' (rw (here, ◌>>=◌) at e)
    ];
  }

  pub Gives-bind :
      {B : Type 0} (m : Run S B) (f : B → Run S A) → ((b : B) → Gives Q (f b)) → Gives Q (m >>= f)
  Gives-bind m f gf = Gives-after (λ _. Unit) m f (record { at = λ s b s' e. tt }) (λ b _. gf b)

  pub Gives-read : (f : S → Run S A) → ((s : S) → Gives Q (f s)) → Gives Q (get >>= f)
  Gives-read f gf = Gives-bind get f gf

  pub Gives-then : (m : Run S (Unit {0})) (k : Run S A) → Gives Q k → Gives Q (m >> k)
  Gives-then m k gk = Gives-bind m (λ _. k) (λ _. gk)

  pub Gives-if :
      (b : Bool) (m n : Run S A)
      → (b ≡ true → Gives Q m)
      → (b ≡ false → Gives Q n)
      → Gives Q (if b then m else n)
  Gives-if true m n gm gn = gm refl
  Gives-if false m n gm gn = gn refl
