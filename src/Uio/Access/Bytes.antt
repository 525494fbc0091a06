-- ===== src/Uio/Access/Bytes.antt =====
-- Lists of bytes: words in two halves, and stores one behind the other.
use remote_debug_for_intel_f.Prelude.{
  ℕ, leb_false→lt, zero, suc, ◌+◌, ◌/◌, ◌%◌, ◌^◌, ◌≤◌, ◌<◌, List, [], ◌∷◌, ◌++◌, none, some, ◌≡◌,
  refl, sym, ap, ◌∙◌, arith, bit_or, u32, shl, shr, leb, take, drop, length, blit, of_bytes,
  to_bytes, le→leb, lt→leb, length-append, length-take, length-drop, append_assoc, blit_behind,
  drop-append_left, take-append_left, drop-drop, inl, inr, leb→le, Bool-cases,
}
use native.Mathlib.Nat.{pow-succ'}
use remote_debug_for_intel_f.Prelude.Bits.{or-shl}

-- Memory holds bytes.
unfoldable pub IsBytes : List ℕ → Type 0
IsBytes [] = Unit
IsBytes (b ∷ bs) = (b < 256) × IsBytes bs

pub drop-IsBytes : (n : ℕ) (bs : List ℕ) → IsBytes bs → IsBytes (drop n bs)
unfolding IsBytes
drop-IsBytes zero bs h = h
drop-IsBytes (suc n) [] h = tt
drop-IsBytes (suc n) (b ∷ bs) h = drop-IsBytes n bs h.1

-- The eight bytes at the head of the list, in two halves.
pub halves :
    (bs : List ℕ)
    → IsBytes bs
    → 8 ≤ length bs
    → bit_or (of_bytes (take 4 bs)) (shl (of_bytes (take 4 (drop 4 bs))) 32) ≡ of_bytes (take 8 bs)
unfolding IsBytes of_bytes
halves (a ∷ b ∷ c ∷ d ∷ e ∷ f ∷ g ∷ h ∷ bs) (pa, (pb, (pc, (pd, _)))) _ =
    or-shl 32 (of_bytes (a ∷ b ∷ c ∷ d ∷ [])) (of_bytes (e ∷ f ∷ g ∷ h ∷ [])) (omega arith)
    ∙ omega arith
halves _ _ h = absurd (omega arith)

-- The store of one list, then of another behind it.
module _ (bytes : List ℕ) (at : ℕ) (xs ys : List ℕ) where
  front : at + length xs ≤ length bytes → length (take at bytes ++ xs) ≡ at + length xs
  front h = omega (arith, length-append (take at bytes) xs, length-take at bytes)

  stored :
      at + length xs ≤ length bytes
      → length (take at bytes ++ xs ++ drop (at + length xs) bytes) ≡ length bytes
  stored h = omega (
    arith,
    length-append (take at bytes ++ xs) (drop (at + length xs) bytes),
    length-append (take at bytes) xs,
    length-take at bytes,
    length-drop (at + length xs) bytes,
  )

  behind :
      at + length (xs ++ ys) ≤ length bytes
      → blit (take at bytes ++ xs ++ drop (at + length xs) bytes) (at + length xs) ys
        ≡ some (take at bytes ++ (xs ++ ys) ++ drop (at + length (xs ++ ys)) bytes)
  behind h =
      let l = length-append xs ys in
      ap (λ n. blit (take at bytes ++ xs ++ drop (at + length xs) bytes) n ys)
        (sym (front (omega arith)))
      ∙ blit_behind (take at bytes ++ xs) (drop (at + length xs) bytes) ys
          (omega (arith, length-drop (at + length xs) bytes))
      ∙ ap some (
          ap (λ f. f ++ drop (length ys) (drop (at + length xs) bytes))
            (append_assoc (take at bytes) xs ys)
          ∙ ap (λ r. take at bytes ++ (xs ++ ys) ++ r)
              (drop-drop (length ys) (at + length xs) bytes ∙ ap (λ k. drop k bytes) (omega arith)))

  pub blit-append :
      (elim (blit bytes at xs) [ none ↦ none | some b ↦ blit b (at + length xs) ys ])
      ≡ blit bytes at (xs ++ ys)
  blit-append =
      let l = length-append xs ys in
      elim (Bool-cases (leb (at + length (xs ++ ys)) (length bytes))) [
        | inl fits ↦
            let room = leb→le (at + length (xs ++ ys)) (length bytes) fits in
            rw (fits, le→leb (at + length xs) (length bytes) (omega arith)) (behind room)
        | inr short ↦
            let past = leb_false→lt (at + length (xs ++ ys)) (length bytes) short in
            elim (Bool-cases (leb (at + length xs) (length bytes))) [
              | inl first ↦
                  rw
                    (
                      short,
                      first,
                      lt→leb (at + length xs + length ys)
                          (length (take at bytes ++ xs ++ drop (at + length xs) bytes))
                          (omega (arith, stored (leb→le (at + length xs) (length bytes) first))),
                    )
                    refl
              | inr first ↦ rw (short, first) refl
            ]
      ]

-- The low four bytes do not see what stands above them.
to_bytes-u32 : (v : ℕ) → to_bytes 4 (u32 v) ≡ to_bytes 4 v
unfolding to_bytes
to_bytes-u32 v =
    let e0 : u32 v % 256 ≡ v % 256 = omega arith in
    let e1 : u32 v / 256 % 256 ≡ v / 256 % 256 = omega arith in
    let e2 : u32 v / 256 / 256 % 256 ≡ v / 256 / 256 % 256 = omega arith in
    let e3 : u32 v / 256 / 256 / 256 % 256 ≡ v / 256 / 256 / 256 % 256 = omega arith in
    λ i. e0 i ∷ e1 i ∷ e2 i ∷ e3 i ∷ []

pub to_bytes_halves : (v : ℕ) → to_bytes 8 v ≡ to_bytes 4 (u32 v) ++ to_bytes 4 (u32 (shr v 32))
unfolding to_bytes
to_bytes_halves v =
    ap (λ w. to_bytes 4 v ++ to_bytes 4 w) {x = v / 256 / 256 / 256 / 256} {y = shr v 32}
      (omega arith)
    ∙ (λ i. sym (to_bytes-u32 v) i ++ sym (to_bytes-u32 (shr v 32)) i)

-- What was stored is loaded again.
pub of_bytes-to_bytes : (n value : ℕ) → value < 256 ^ n → of_bytes (to_bytes n value) ≡ value
unfolding of_bytes to_bytes
of_bytes-to_bytes zero v h = omega arith
of_bytes-to_bytes (suc n) v h =
    let small : v / 256 < 256 ^ n = omega (arith, pow-succ' 256 n) in
    omega (arith, of_bytes-to_bytes n (v / 256) small)

pub length-to_bytes : (n value : ℕ) → length (to_bytes n value) ≡ n
unfolding to_bytes
length-to_bytes zero v = refl
length-to_bytes (suc n) v = ap suc (length-to_bytes n (v / 256))

pub append-IsBytes : (xs ys : List ℕ) → IsBytes xs → IsBytes ys → IsBytes (xs ++ ys)
unfolding IsBytes
append-IsBytes [] ys p q = q
append-IsBytes (x ∷ xs) ys p q = (p.0, append-IsBytes xs ys p.1 q)

pub take-IsBytes : (n : ℕ) (bs : List ℕ) → IsBytes bs → IsBytes (take n bs)
unfolding IsBytes
take-IsBytes zero bs h = tt
take-IsBytes (suc n) [] h = tt
take-IsBytes (suc n) (b ∷ bs) h = (h.0, take-IsBytes n bs h.1)

pub to_bytes-IsBytes : (n v : ℕ) → IsBytes (to_bytes n v)
unfolding IsBytes to_bytes
to_bytes-IsBytes zero v = tt
to_bytes-IsBytes (suc n) v = (omega arith, to_bytes-IsBytes n (v / 256))

pub load_stored :
    (n at value : ℕ) (bytes : List ℕ)
    → at + n ≤ length bytes
    → take n (drop at (take at bytes ++ to_bytes n value ++ drop (at + n) bytes)) ≡ to_bytes n value
load_stored n at value bytes room =
    let word = to_bytes n value in
    let rest = drop (at + n) bytes in
    let here : length (take at bytes) ≡ at + 0 = omega (arith, length-take at bytes) in
    ap (take n) (
      ap (drop at) (append_assoc (take at bytes) word rest)
      ∙ ap (λ k. drop k (take at bytes ++ (word ++ rest))) {x = at} {y = length (take at bytes) + 0}
          (omega (arith, here))
      ∙ drop-append_left (take at bytes) (word ++ rest) 0)
    ∙ ap (λ k. take k (word ++ rest)) (sym (length-to_bytes n value))
    ∙ take-append_left word rest
