-- ===== src/Sockets/Recv/Size.antt =====
-- The receive loop of streaming/src/intel_st_debug_if_sockets.c leaves the buffer its size.
use remote_debug_for_intel_f.Prelude.{
  ℕ, subst, zero, suc, ◌+◌, ◌≡◌, refl, inl, inr, false, List, [], ◌∷◌, ◌++◌, Option, none, some,
  arith, length, blit, take, drop, sub64, length-append, length-take, length-drop, Option-cases,
  Bool-cases, ◌==◌,
}
use remote_debug_for_intel_f.Prelude.Int.{ℤ}
use remote_debug_for_intel_f.Os.{Os, Received, got, failed}
use remote_debug_for_intel_f.Sockets.{ReturnCode, recv_loop, socket_recv_accumulate}

blit_size :
    (bytes bytes' : List ℕ) (at : ℕ) (src : List ℕ)
    → blit bytes at src ≡ some bytes'
    → length bytes' ≡ length bytes
blit_size bytes bytes' at src h = ground (
  arith,
  length-append (take at bytes ++ src) (drop (at + length src) bytes),
  length-append (take at bytes) src,
  length-take at bytes,
  length-drop (at + length src) bytes,
  h,
)

module _ {N : Type 0} (os : Os N) (fd : ℤ) where
  abbrev Same : ℕ → Option ((ReturnCode × ℤ × List ℕ) × N) → Type 0
  Same k none = Unit
  Same k (some ((rc, count, buff), s)) = length buff ≡ k

  received_size :
      (fuel : ℕ) (buff : List ℕ) (at len flags n : ℕ) (s : N)
      → (n == 0) ≡ false
      → ((buff' : List ℕ) (at n : ℕ) (s : N)
          → Same (length buff') (recv_loop os fuel fd buff' at len flags n s))
      → (a : Received) → (os.recv fd n flags s).0 ≡ a
      → Same (length buff) (recv_loop os (suc fuel) fd buff at len flags n s)
  unfolding recv_loop
  received_size fuel buff at len flags n s more ih (failed e) a = rw (more, a, recv_loop) refl
  received_size fuel buff at len flags n s more ih (got []) a = rw (more, a, recv_loop) refl
  received_size fuel buff at len flags n s more ih (got (b ∷ bs)) a =
      elim (Option-cases (blit buff at (b ∷ bs))) [
        | inl outside ↦ rw (more, a, outside, recv_loop) tt
        | inr (buff', inside) ↦
            rw (more, a, inside, recv_loop)
              (subst
                (λ k. Same k (
                  recv_loop os fuel fd buff' (at + length (b ∷ bs)) len flags
                    (sub64 n (length (b ∷ bs))) (os.recv fd n flags s).1))
                (blit_size buff buff' at (b ∷ bs) inside)
                (ih buff' (at + length (b ∷ bs)) (sub64 n (length (b ∷ bs)))
                  (os.recv fd n flags s).1))
      ]

  recv_loop_size :
      (fuel : ℕ) (buff : List ℕ) (at len flags n : ℕ) (s : N)
      → Same (length buff) (recv_loop os fuel fd buff at len flags n s)
  unfolding recv_loop
  recv_loop_size zero buff at len flags n s = tt
  recv_loop_size (suc fuel) buff at len flags n s = elim (Bool-cases (n == 0)) [
    | inl e ↦ rw (e, recv_loop) refl
    | inr e ↦
        received_size fuel buff at len flags n s e
          (λ buff' at' n' s'. recv_loop_size fuel buff' at' len flags n' s')
          (os.recv fd n flags s).0 refl
  ]

  -- Whatever comes, the buffer keeps its size.
  pub socket_recv_accumulate_size :
      (buff : List ℕ) (len flags : ℕ) (s : N) (rc : ReturnCode) (k : ℤ) (buff' : List ℕ) (s' : N)
      → socket_recv_accumulate os fd buff len flags s ≡ some ((rc, k, buff'), s')
      → length buff' ≡ length buff
  unfolding socket_recv_accumulate
  socket_recv_accumulate_size buff len flags s rc k buff' s' e =
      subst (Same (length buff)) e (recv_loop_size (suc len) buff 0 len flags len s)
