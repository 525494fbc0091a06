-- ===== src/Server/Keeps.antt =====
-- What the functions of streaming/src/intel_st_debug_if_server.c keep of the buffers: rules for each way to
-- build one.
use remote_debug_for_intel_f.Prelude.{
  ℕ, List, Bool-cases, sym, ◌∙◌, subst, ap, arith, ◌≡◌, inl, inr, Bool, true, false, Option, none,
  some, Run, ◌>>=◌, ◌>>◌, pure, get, fault, if◌then◌else◌, Option-cases,
}
use remote_debug_for_intel_f.Driver.{Device}
use remote_debug_for_intel_f.Server.{
  ServerBuffers, ServerConn, World, on_os, on_dev, set_conn, set_buff,
}
use remote_debug_for_intel_f.Server.H2t.{set_recv_buff, set_send_buff}
use remote_debug_for_intel_f.Server.Params.{string}

pub some-none : {A : Type 0} {a : A} → none ≡ some a → ⊥
some-none e = cc e

-- What a run that returned `some` returned.
module _ {N X : Type 0} where
  abbrev pub world_of : {A : Type 0} → World N X → Option (A × World N X) → World N X
  world_of w none = w
  world_of w (some (a, w')) = w'

  pub returned :
      (P : ServerBuffers → Type 0) {A : Type 0} {x a : A} (w w' : World N X)
      → ◌≡◌ {A = Option (A × World N X)} (some (x, w)) (some (a, w'))
      → P w.conn.buff
      → P w'.conn.buff
  returned P w w' e = subst (λ u. P u.conn.buff) (ap (world_of w) e)

module _ {N X : Type 0} (P : ServerBuffers → Type 0) where
  -- If `f` returns, its buffers still have `P`.
  pub record Keeps {A : Type 0} (f : Run (World N X) A) : Type 0 where
    pub at :
        (w : World N X) (a : A) (w' : World N X)
        → P w.conn.buff
        → f w ≡ some (a, w')
        → P w'.conn.buff

module _ {N X : Type 0} {P : ServerBuffers → Type 0} where
  pub Keeps-pure : {A : Type 0} (a : A) → Keeps {N = N} {X = X} P (pure a)
  Keeps-pure a = record { at = λ w b w' h e. ground (arith, h, e) }

  pub Keeps-bind :
      {A B : Type 0} (m : Run (World N X) A) (f : A → Run (World N X) B)
      → Keeps P m
      → ((a : A) → Keeps P (f a))
      → Keeps P (m >>= f)
  Keeps-bind m f km kf = record {
    at = λ w b w'' h e. elim (Option-cases (m w)) [
      | inl fails ↦ absurd (some-none (rw (fails, ◌>>=◌) at e))
      | inr ((a, w'), here) ↦ (kf a).at w' b w'' (km.at w a w' h here) (rw (here, ◌>>=◌) at e)
    ];
  }

  pub Keeps-then :
      {B : Type 0} (m : Run (World N X) (Unit {0})) (k : Run (World N X) B)
      → Keeps P m
      → Keeps P k
      → Keeps P (m >> k)
  Keeps-then m k km kk = Keeps-bind m (λ _. k) km (λ _. kk)

  pub Keeps-if :
      {A : Type 0} (b : Bool) (m n : Run (World N X) A)
      → Keeps P m
      → Keeps P n
      → Keeps P (if b then m else n)
  Keeps-if true m n km kn = km
  Keeps-if false m n km kn = kn

  -- A run that goes by an optional value of the world, such as a callback.
  pub Keeps-elim :
      {A B : Type 0} (o : World N X → Option B) (z : Run (World N X) A) (k : B → Run (World N X) A)
      → Keeps P z
      → ((b : B) → Keeps P (k b))
      → Keeps P (λ w. elim (o w) [ none ↦ z w | some b ↦ k b w ])
  Keeps-elim o z k kz kk = record {
    at = λ w a w' h e. elim (Option-cases (o w)) [
      | inl none_there ↦
          kz.at w a w' h (ap (λ c. elim c [ none ↦ z w | some b ↦ k b w ]) (sym none_there) ∙ e)
      | inr (b, there) ↦
          (kk b).at w a w' h (ap (λ c. elim c [ none ↦ z w | some b ↦ k b w ]) (sym there) ∙ e)
    ];
  }

  pub Keeps-fault : {A : Type 0} → Keeps {N = N} {X = X} P {A = A} fault
  Keeps-fault = record { at = λ w a w' h e. absurd (some-none e) }

  -- A run that goes by a test of the world.
  pub Keeps-if-at :
      {A : Type 0} (c : World N X → Bool) (m n : World N X → Run (World N X) A)
      → ((w : World N X) → Keeps P (m w))
      → ((w : World N X) → Keeps P (n w))
      → Keeps P (λ w. if c w then m w w else n w w)
  Keeps-if-at c m n km kn = record {
    at = λ w a w' h e. elim (Bool-cases (c w)) [
      | inl yes_c ↦ (km w).at w a w' h (ap (λ b. if b then m w w else n w w) (sym yes_c) ∙ e)
      | inr no_c ↦ (kn w).at w a w' h (ap (λ b. if b then m w w else n w w) (sym no_c) ∙ e)
    ];
  }

  pub Keeps-read : {A : Type 0} (g : World N X → A) → Keeps {N = N} {X = X} P (λ w. some (g w, w))
  Keeps-read g = record { at = λ w a w' h e. returned P w w' e h }

  pub Keeps-modify :
      (f : World N X → World N X)
      → ((w : World N X) → P w.conn.buff → P (f w).conn.buff)
      → Keeps {N = N} {X = X} P (λ w. some (tt, f w))
  Keeps-modify f kf = record { at = λ w a w' h e. returned P (f w) w' e (kf w h) }

  pub Keeps-set_recv_buff : (host : List ℕ) → Keeps {N = N} {X = X} P (set_recv_buff host)
  Keeps-set_recv_buff host = record {
    at = λ w a w' h e. returned P (record w { recv_buff = some host }) w' e h;
  }

  pub Keeps-set_send_buff : (host : List ℕ) → Keeps {N = N} {X = X} P (set_send_buff host)
  Keeps-set_send_buff host = record {
    at = λ w a w' h e. returned P (record w { send_buff = some host }) w' e h;
  }

  -- A run that looks at the world first.
  pub Keeps-from :
      {A : Type 0} (f : World N X → Run (World N X) A)
      → ((w : World N X) → Keeps P (f w))
      → Keeps P (λ w. f w w)
  Keeps-from f kf = record { at = λ w. (kf w).at w }

  pub Keeps-get :
      {A : Type 0} (f : World N X → Run (World N X) A)
      → ((w : World N X) → Keeps P (f w))
      → Keeps P (get >>= f)
  Keeps-get f kf = record { at = λ w. (kf w).at w }

  pub Keeps-on_os : {A : Type 0} (f : Run N A) → Keeps {N = N} {X = X} P (on_os f)
  Keeps-on_os f = record {
    at = λ w a w' h e. elim (Option-cases (f w.os)) [
      | inl fails ↦ absurd (some-none (rw (on_os, fails) at e))
      | inr ((b, s), here) ↦ returned P (record w { os = s }) w' (rw (on_os, here) at e) h
    ];
  }

  pub Keeps-on_dev : {A : Type 0} (f : Run (Device X) A) → Keeps {N = N} {X = X} P (on_dev f)
  Keeps-on_dev f = record {
    at = λ w a w' h e. elim (Option-cases (f w.dev)) [
      | inl fails ↦ absurd (some-none (rw (on_dev, fails) at e))
      | inr ((b, d), here) ↦ returned P (record w { dev = d }) w' (rw (on_dev, here) at e) h
    ];
  }

  pub Keeps-string : {A : Type 0} (o : Option A) → Keeps {N = N} {X = X} P (string o)
  Keeps-string none = record { at = λ w a w' h e. absurd (some-none e) }
  Keeps-string (some b) = Keeps-pure b

  pub Keeps-set_conn :
      (f : ServerConn X → ServerConn X)
      → ((c : ServerConn X) → P c.buff → P (f c).buff)
      → Keeps {N = N} P (set_conn f)
  Keeps-set_conn f kf = record {
    at = λ w a w' h e. returned P (record w { conn = f w.conn }) w' e (kf w.conn h);
  }

  pub Keeps-set_buff :
      (f : ServerBuffers → ServerBuffers)
      → ((b : ServerBuffers) → P b → P (f b))
      → Keeps {N = N} {X = X} P (set_buff f)
  Keeps-set_buff f kf = record {
    at = λ w a w' h e.
        returned P (record w { conn = record (w.conn) { buff = f w.conn.buff } }) w' e
          (kf w.conn.buff h);
  }

pub ruleset keeps_rules = (
  Keeps-pure, Keeps-bind, Keeps-then, Keeps-if, Keeps-get, Keeps-on_os, Keeps-on_dev, Keeps-string,
  Keeps-elim, Keeps-fault, Keeps-set_recv_buff, Keeps-set_send_buff,
)
