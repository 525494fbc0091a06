-- ===== src/Driver/Slots/Chain.antt =====
-- The descriptor chain as a window of sizes that goes round the array, and the loop that adds up a
-- prefix of it.
use remote_debug_for_intel_f.Prelude.{
  ℕ, zero, suc, ◌+◌, ◌%◌, ◌^◌, ◌≤◌, ◌<◌, ◌≡◌, ◌∙◌, ap, Bool, true, false, List, [], ◌∷◌, some,
  arith, get_or, length, take, ltb, u8, u64,
}
use remote_debug_for_intel_f.Driver.Slots.{char_to_u32, chain_index, free_loop}

abbrev pub sum : List ℕ → ℕ
sum [] = 0
sum (x ∷ xs) = x + sum xs

-- The entries of `chain` from index `r` on, going round at 128, are `sizes`.
abbrev pub Window : List ℕ → ℕ → List ℕ → Type 0
Window chain r [] = Unit {0}
Window chain r (x ∷ sizes) = (get_or chain r 0 ≡ x) × Window chain ((r + 1) % 128) sizes

-- Below 128 rounds `char` is as good as an integer, signed or not.
round_goes_on :
    (char_is_signed : Bool) (i freed : ℕ)
    → i < freed
    → freed ≤ 128
    → ltb (char_to_u32 char_is_signed i) freed ≡ true
round_goes_on true i freed h k = ground arith
round_goes_on false i freed h k = ground arith

round_stops :
    (char_is_signed : Bool) (i : ℕ) → i ≤ 128 → ltb (char_to_u32 char_is_signed i) i ≡ false
round_stops true i h = ground arith
round_stops false i h = ground arith

index_in_round :
    (char_is_signed : Bool) (r i : ℕ)
    → i < 128
    → chain_index char_is_signed r i ≡ some ((r + i) % 128)
index_in_round true r i h = ground arith
index_in_round false r i h = ground arith

module _ (s : Bool) (fuel : ℕ) (chain : List ℕ) (r freed i acc : ℕ) where
  loop_ends :
      ltb (char_to_u32 s i) freed ≡ false → free_loop s (suc fuel) chain r freed i acc ≡ some acc
  unfolding free_loop
  loop_ends h = rw (h, free_loop)

  loop_turns :
      (k : ℕ)
      → ltb (char_to_u32 s i) freed ≡ true
      → chain_index s r i ≡ some k
      → free_loop s (suc fuel) chain r freed i acc
        ≡ free_loop s fuel chain r freed (u8 (i + 1)) (u64 (acc + get_or chain k 0))
  unfolding free_loop
  loop_turns k h e = rw (h, e, free_loop)

-- Let `n` rounds be left before `freed`, which is at most 128, and let the chain hold `sizes`, at
-- least `n` of them, from the position of round `i` on; let the running total and all the sizes
-- stay below 2^64. Then with more than `n` fuel the loop returns the total with the first `n` sizes
-- added, for a signed and for an unsigned `char`.
pub free_loop_lem :
    (s : Bool) (fuel n i freed : ℕ) (chain : List ℕ) (r acc : ℕ) (sizes : List ℕ)
    → i + n ≡ freed
    → freed ≤ 128
    → n < fuel
    → n ≤ length sizes
    → acc + sum sizes < 2 ^ 64
    → Window chain ((r + i) % 128) sizes
    → free_loop s fuel chain r freed i acc ≡ some (acc + sum (take n sizes))
free_loop_lem s zero n i freed chain r acc sizes hi hd hf hl hs w = absurd (omega arith)
free_loop_lem s (suc fuel) zero i freed chain r acc sizes hi hd hf hl hs w =
    let e : i ≡ freed = omega arith in
    let stops : ltb (char_to_u32 s i) freed ≡ false = rw (← e) (round_stops s i (omega arith)) in
    loop_ends s fuel chain r freed i acc stops ∙ ap some (omega arith)
free_loop_lem s (suc fuel) (suc n) i freed chain r acc [] hi hd hf hl hs w = absurd (omega arith)
free_loop_lem s (suc fuel) (suc n) i freed chain r acc (x ∷ sizes) hi hd hf hl hs w =
    let next_i : u8 (i + 1) ≡ i + 1 = omega arith in
    let next_acc : u64 (acc + get_or chain ((r + i) % 128) 0) ≡ acc + x = ground (arith, w.0) in
    let next_at : ((r + i) % 128 + 1) % 128 ≡ (r + (i + 1)) % 128 = omega arith in
    loop_turns s fuel chain r freed i acc ((r + i) % 128) (round_goes_on s i freed (omega arith) hd)
      (index_in_round s r i (omega arith))
    ∙ rw (next_i, next_acc)
        (free_loop_lem s fuel n (i + 1) freed chain r (acc + x) sizes (omega arith) hd (omega arith)
            (omega arith) (omega arith) (rw next_at at w.1)
          ∙ ap some (omega arith))
