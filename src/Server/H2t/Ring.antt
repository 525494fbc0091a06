-- ===== src/Server/H2t/Ring.antt =====
-- Bytes that are laid over a memory that is used as a ring.
use remote_debug_for_intel_f.Prelude.{
  ℕ, Bool, inl, inr, Bool-cases, leb→le, leb_false→lt, false, leb, lt→leb, if◌then◌else◌, take-take,
  nil_of, append-nil, ◌+◌, ◌-◌, ◌≤◌, ◌<◌, List, [], ◌++◌, ◌≡◌, sym, ap, ◌∙◌, arith, take, drop,
  length, length-append, length-drop, length-take, drop-append_left, drop-append_all, append_assoc,
  take-append_left, drop-drop, take-append-drop,
}
use remote_debug_for_intel_f.Server.Wrap.Around.{
  around, take_front, take_over, take_all, drop_front,
}

-- `bs` laid over the bytes from the offset `o` on.
abbrev pub lay : (o : ℕ) (bs ring : List ℕ) → List ℕ
lay o bs ring = take o ring ++ (bs ++ drop (o + length bs) ring)

module _ (o : ℕ) (bs ring : List ℕ) (fits : o + length bs ≤ length ring) where
  front : length (take o ring) ≡ o
  front = omega (arith, length-take o ring)

  pub length-lay : length (lay o bs ring) ≡ length ring
  length-lay = omega (
    arith,
    front,
    length-append (take o ring) (bs ++ drop (o + length bs) ring),
    length-append bs (drop (o + length bs) ring),
    length-drop (o + length bs) ring,
  )

  pub drop-lay : drop o (lay o bs ring) ≡ bs ++ drop (o + length bs) ring
  drop-lay =
      ap (λ k. drop k (lay o bs ring)) (sym front)
      ∙ drop-append_all (take o ring) (bs ++ drop (o + length bs) ring)

  -- The same bytes in the memory round the ring.
  pub lay_within :
      (before after : List ℕ)
      → (take (length before + o) (before ++ (ring ++ after)) ++ bs)
          ++ drop (length before + o + length bs) (before ++ (ring ++ after))
        ≡ before ++ (lay o bs ring ++ after)
  lay_within before after =
      let k = o + length bs in
      let first : take (length before + o) (before ++ (ring ++ after)) ≡ before ++ take o ring =
        take_over o before (ring ++ after)
        ∙ ap (λ t. before ++ t) (take_front o ring after (omega arith)) in
      let last : drop (length before + o + length bs) (before ++ (ring ++ after))
          ≡ drop k ring ++ after =
        ap (λ j. drop j (before ++ (ring ++ after))) {x = length before + o + length bs}
          {y = length before + k} (omega arith)
        ∙ drop-append_left before (ring ++ after) k
        ∙ drop_front k ring after fits in
      (λ i. (first i ++ bs) ++ last i)
      ∙ append_assoc (before ++ take o ring) bs (drop k ring ++ after)
      ∙ append_assoc before (take o ring) (bs ++ (drop k ring ++ after))
      ∙ ap (λ t. before ++ t)
          (ap (λ t. take o ring ++ t) (sym (append_assoc bs (drop k ring) after))
            ∙ sym (append_assoc (take o ring) (bs ++ drop k ring) after))

  -- A payload in one piece.
  pub around-lay : (n : ℕ) → n ≤ length bs → around o n (lay o bs ring) ≡ take n bs
  around-lay n h =
      let l : length (bs ++ drop (o + length bs) ring)
          ≡ length bs + length (drop (o + length bs) ring) =
        length-append bs (drop (o + length bs) ring) in
      ap (λ t. take n (t ++ lay o bs ring)) drop-lay
      ∙ take_front n (bs ++ drop (o + length bs) ring) (lay o bs ring) (omega (arith, l))
      ∙ take_front n bs (drop (o + length bs) ring) h

-- A payload in two pieces: `one` up to the end of the ring, and `two` over its start.
around-lay_twice :
    (o n : ℕ) (one two ring : List ℕ)
    → o + length one ≡ length ring
    → length two ≤ o
    → n ≤ length one + length two
    → around o n (lay 0 two (lay o one ring)) ≡ take n (one ++ two)
around-lay_twice o n one two ring e low h =
    let ring1 = lay o one ring in
    let ring2 = lay 0 two ring1 in
    let rest = drop (0 + length two) ring1 in
    let none_left : drop (o + length one) ring ≡ [] =
      nil_of (drop (o + length one) ring) (omega (arith, e, length-drop (o + length one) ring)) in
    let past : drop o ring2 ≡ drop o ring1 =
      ap (λ k. drop k ring2) {x = o} {y = length two + (o - length two)} (omega arith)
      ∙ drop-append_left two rest (o - length two)
      ∙ drop-drop (o - length two) (0 + length two) ring1
      ∙ ap (λ k. drop k ring1) {x = 0 + length two + (o - length two)} {y = o} (omega arith) in
    let back : drop o ring2 ≡ one =
      past ∙ drop-lay o one ring (omega arith) ∙ ap (λ t. one ++ t) none_left ∙ append-nil one in
    ap (λ t. take n (t ++ ring2)) back
    ∙ ap (take n) (sym (append_assoc one two rest))
    ∙ take_front n (one ++ two) rest (omega (arith, length-append one two))

-- Bytes that are laid over a ring from the offset `o` on, round its end where they do not fit.
abbrev pub lay_around : (o : ℕ) (bs ring : List ℕ) → List ℕ
lay_around o bs ring =
    let f = length ring - o in
    if leb (o + length bs) (length ring)
    then lay o bs ring
    else lay 0 (drop f bs) (lay o (take f bs) ring)

-- The first of two lists reaches the end of the ring.
pub lay_around-append :
    (o : ℕ) (one two ring : List ℕ)
    → o + length one ≡ length ring
    → 0 < length two
    → lay_around o (one ++ two) ring ≡ lay 0 two (lay o one ring)
lay_around-append o one two ring e h =
    let bs = one ++ two in
    let f = length ring - o in
    let room : f ≡ length one = omega arith in
    let past : leb (o + length bs) (length ring) ≡ false =
      lt→leb (o + length bs) (length ring) (omega (arith, length-append one two)) in
    ap (λ c. if c then lay o bs ring else lay 0 (drop f bs) (lay o (take f bs) ring)) past
    ∙ (λ i. lay 0 (drop (room i) bs) (lay o (take (room i) bs) ring))
    ∙ (λ i. lay 0 (drop-append_all one two i) (lay o (take-append_left one two i) ring))

-- The head of two lists, of which the first is the first `f` bytes of `q`.
pub take-both :
    (f n : ℕ) (one two q : List ℕ)
    → f ≤ n
    → length one ≡ f
    → take f one ≡ take f q
    → take (n - f) two ≡ take (n - f) (drop f q)
    → take n (one ++ two) ≡ take n q
take-both f n one two q h l e e' =
    ap (λ k. take k (one ++ two)) {x = n} {y = length one + (n - f)} (omega arith)
    ∙ take_over (n - f) one two
    ∙ (λ i. (sym (take_all one) ∙ ap (λ k. take k one) l ∙ e) i ++ e' i)
    ∙ take-take (n - f) f q
    ∙ ap (λ k. take k q) {x = f + (n - f)} {y = n} (omega arith)

-- What has been laid over the ring can be read back from it.
pub around-lay_around :
    (o n : ℕ) (bs ring : List ℕ)
    → o ≤ length ring
    → length bs ≤ length ring
    → n ≤ length bs
    → around o n (lay_around o bs ring) ≡ take n bs
around-lay_around o n bs ring inside small h =
    let f = length ring - o in
    let choose : Bool → List ℕ =
      λ c. around o n (if c then lay o bs ring else lay 0 (drop f bs) (lay o (take f bs) ring)) in
    elim (Bool-cases (leb (o + length bs) (length ring))) [
      | inl e ↦ ap choose e ∙ around-lay o bs ring (leb→le (o + length bs) (length ring) e) n h
      | inr e ↦
          let over : length ring < o + length bs = leb_false→lt (o + length bs) (length ring) e in
          let first : length (take f bs) ≡ f = omega (arith, length-take f bs) in
          ap choose e
          ∙ around-lay_twice o n (take f bs) (drop f bs) ring (omega (arith, first))
              (omega (arith, length-drop f bs)) (omega (arith, first, length-drop f bs))
          ∙ ap (take n) (take-append-drop f bs)
    ]
