-- ===== src/Server/Wrap/Around.antt =====
-- A memory that is used as a ring: the bytes that a payload has there, in one piece or in two.
use remote_debug_for_intel_f.Prelude.{
  ℕ, zero, suc, ◌+◌, ◌-◌, ◌≤◌, List, [], ◌∷◌, ◌++◌, ◌≡◌, refl, sym, ap, ◌∙◌, arith, take, drop,
  length, length-drop, drop-append_left,
}

-- The `n` bytes from the offset `o` on, round the end of the ring.
abbrev pub around : (o n : ℕ) (ring : List ℕ) → List ℕ
around o n ring = take n (drop o ring ++ ring)

pub take_front : (n : ℕ) (xs ys : List ℕ) → n ≤ length xs → take n (xs ++ ys) ≡ take n xs
take_front zero xs ys h = refl
take_front (suc n) [] ys h = absurd (omega arith)
take_front (suc n) (x ∷ xs) ys h = ap (λ t. x ∷ t) (take_front n xs ys (omega arith))

pub take_over : (k : ℕ) (xs ys : List ℕ) → take (length xs + k) (xs ++ ys) ≡ xs ++ take k ys
take_over k [] ys = ap (λ j. take j ys) (omega arith)
take_over k (x ∷ xs) ys =
    ap (λ j. take j (x ∷ (xs ++ ys))) {x = suc (length xs) + k} {y = suc (length xs + k)}
      (omega arith)
    ∙ ap (λ t. x ∷ t) (take_over k xs ys)

pub drop_front : (n : ℕ) (xs ys : List ℕ) → n ≤ length xs → drop n (xs ++ ys) ≡ drop n xs ++ ys
drop_front zero xs ys h = refl
drop_front (suc n) [] ys h = absurd (omega arith)
drop_front (suc n) (x ∷ xs) ys h = drop_front n xs ys (omega arith)

pub take_all : (xs : List ℕ) → take (length xs) xs ≡ xs
take_all [] = refl
take_all (x ∷ xs) = ap (λ t. x ∷ t) (take_all xs)

module _ (before ring after : List ℕ) where
  abbrev memory : List ℕ
  memory = before ++ (ring ++ after)

  at_offset : (o : ℕ) → o ≤ length ring → drop (length before + o) memory ≡ drop o ring ++ after
  at_offset o h = drop-append_left before (ring ++ after) o ∙ drop_front o ring after h

  -- A payload that ends inside the memory.
  pub around_inside :
      (o n : ℕ) → o + n ≤ length ring → take n (drop (length before + o) memory) ≡ around o n ring
  around_inside o n h =
      let room : n ≤ length (drop o ring) = omega (arith, length-drop o ring) in
      ap (take n) (at_offset o (omega arith))
      ∙ take_front n (drop o ring) after room
      ∙ sym (take_front n (drop o ring) ring room)

  -- A payload in two pieces, of which the first has `f` bytes and ends with the memory.
  pub around_wraps :
      (o n f : ℕ)
      → o + f ≡ length ring
      → f ≤ n
      → n ≤ length ring
      → take f (drop (length before + o) memory) ++ take (n - f) (drop (length before + 0) memory)
        ≡ around o n ring
  around_wraps o n f e h fits =
      let l : f ≡ length (drop o ring) = omega (arith, length-drop o ring) in
      let first : take f (drop (length before + o) memory) ≡ drop o ring =
        ap (take f) (at_offset o (omega arith))
        ∙ ap (λ j. take j (drop o ring ++ after)) l
        ∙ take_front (length (drop o ring)) (drop o ring) after (omega arith)
        ∙ take_all (drop o ring) in
      let second : take (n - f) (drop (length before + 0) memory) ≡ take (n - f) ring =
        ap (take (n - f)) (at_offset 0 (omega arith))
        ∙ take_front (n - f) ring after (omega arith) in
      (λ i. first i ++ second i)
      ∙ sym (take_over (n - f) (drop o ring) ring)
      ∙ ap (λ j. take j (drop o ring ++ ring)) {x = length (drop o ring) + (n - f)} {y = n}
          (omega (arith, l))
