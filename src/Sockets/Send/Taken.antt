-- ===== src/Sockets/Send/Taken.antt =====
-- What a stream socket has taken when socket_send_all of
-- streaming/src/intel_st_debug_if_sockets.c has ended, where a failed `send` takes nothing.
use remote_debug_for_intel_f.Prelude.{
  ℕ, inl, inr, ◌<◌, ◌≡◌, refl, sym, ap, ◌∙◌, List, [], ◌∷◌, ◌++◌, length, take, append-nil,
}
use remote_debug_for_intel_f.Prelude.Int.{ℤ}
use remote_debug_for_intel_f.Os.{Os, IsStream, KeepsSent}
use remote_debug_for_intel_f.Sockets.{ReturnCode, ok, failure, init_err, other}
use remote_debug_for_intel_f.Sockets.Send.{Sends, Refused}

take-length : (bs : List ℕ) → take (length bs) bs ≡ bs
take-length [] = refl
take-length (b ∷ bs) = ap (λ l. b ∷ l) (take-length bs)

-- What the socket has taken at the end: a prefix of `bs`, and a proper one with FAILURE.
module _ {N : Type 0} {os : Os N} (st : IsStream os) (fd : ℤ) (flags : ℕ)
    (keeps : KeepsSent st) where
  Refused-sent : (t s' : N) → Refused st fd flags t s' → st.sent fd s' ≡ st.sent fd t
  Refused-sent t s' r = elim (r.took) [
    | inl (n, e) ↦ ap (st.sent fd) (r.left) ∙ keeps.send_failed fd (r.rest) flags n t e
    | inr e ↦
        ap (st.sent fd) (r.left)
        ∙ (st.send_next fd (r.rest) flags 0 t e ∙ append-nil (st.sent fd t))
  ]

  pub Sends-failed :
      (s : N) (bs : List ℕ) (s' : N)
      → Sends st fd flags failure s bs s'
      → (k : ℕ) × (k < length bs) × (st.sent fd s' ≡ st.sent fd s ++ take k bs)
  Sends-failed s bs s' (t, k, h, e, refused) = (k, h, Refused-sent t s' refused ∙ e)

  pub Sends-prefix :
      (rc : ReturnCode) (s : N) (bs : List ℕ) (s' : N)
      → Sends st fd flags rc s bs s'
      → (k : ℕ) × (st.sent fd s' ≡ st.sent fd s ++ take k bs)
  Sends-prefix ok s bs s' e = (length bs, e ∙ ap (λ l. st.sent fd s ++ l) (sym (take-length bs)))
  Sends-prefix failure s bs s' r = let (k, h, e) = Sends-failed s bs s' r in (k, e)
  Sends-prefix init_err s bs s' r = absurd r
  Sends-prefix (other n) s bs s' r = absurd r
