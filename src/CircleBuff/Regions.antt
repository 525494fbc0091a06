-- ===== src/CircleBuff/Regions.antt =====
-- Which bytes of the ring are handed out, and that a new block shares none with them.
use native.Mathlib.Nat.{mod-lt, mod-eq_of_lt, mod-eq-sub-mod, mod-add-mod}
use native.Mathlib.Decide.{dec_lt}
use remote_debug_for_intel_f.Prelude.{
  ℕ, ◌+◌, ◌-◌, ◌%◌, ◌≤◌, ◌<◌, ◌≡◌, ◌≢◌, ◌⊎◌, inl, inr, some, arith,
}
use remote_debug_for_intel_f.CircleBuff.{CircleBuff, cbuff_alloc}
use remote_debug_for_intel_f.CircleBuff.Bounds.{IsValid, used, cbuff_alloc_lem}

-- The offset of byte `j` of a block that starts at offset `at`.
abbrev pub offset_of : CircleBuff → ℕ → ℕ → ℕ
offset_of c at j = (at + j) % c.span

mod_below_twice : (x s : ℕ) → x < s + s → ((x < s) × (x % s ≡ x)) ⊎ ((s ≤ x) × (x % s + s ≡ x))
mod_below_twice x s h = elim (dec_lt x s) [
  | yes p ↦ inl (p, mod-eq_of_lt p)
  | no p ↦ inr (
    omega arith,
    omega (
      arith,
      mod-eq-sub-mod {n = x} {m = s} (omega arith),
      mod-eq_of_lt {n = x - s} {m = s} (omega arith),
    ),
  )
]

-- Two positions less than a round apart are different offsets.
apart : (x y s : ℕ) → x < y → y < x + s → x < s + s → y < s + s → x % s ≢ y % s
apart x y s p q hx hy = ground (arith, mod_below_twice x s hx, mod_below_twice y s hy)

distinct :
    {c : CircleBuff} (i j : ℕ)
    → IsValid c
    → i < c.space_available
    → j < used c
    → offset_of c (c.raw_buff + c.write_offset - c.raw_buff) i ≢ offset_of c c.read_offset j
distinct {c} i j v hi hj = ground (
  arith,
  v.behind,
  mod-add-mod (c.read_offset + used c) c.span i,
  apart (c.read_offset + j) (c.read_offset + used c + i) c.span,
)

-- In a valid ring with room for `amt` bytes, `cbuff_alloc` succeeds with an address at or above the
-- start of the memory. Byte `i` of the new block, for `i` below `amt`, has an offset inside the
-- ring, and for any `j`, either fewer bytes than `j + 1` are handed out, or that offset is not the
-- one of byte `j` of these.
pub cbuff_alloc_disjoint :
    {c : CircleBuff} (amt i j : ℕ)
    → IsValid c
    → amt ≤ c.space_available
    → i < amt
    → (address : ℕ) × (c' : CircleBuff) × (cbuff_alloc amt c ≡ some (address, c'))
      × (c.raw_buff ≤ address)
      × (offset_of c (address - c.raw_buff) i < c.span)
      × ((used c ≤ j) ⊎ (offset_of c (address - c.raw_buff) i ≢ offset_of c c.read_offset j))
cbuff_alloc_disjoint {c} amt i j v h hi =
    let found = cbuff_alloc_lem amt v h in
    (
      c.raw_buff + c.write_offset,
      found.0,
      found.1,
      omega arith,
      mod-lt (c.raw_buff + c.write_offset - c.raw_buff + i) v.nonempty,
      elim (dec_lt j (used c)) [
        | yes hj ↦ inr (distinct i j v (omega arith) hj)
        | no hj ↦ inl (omega arith)
      ],
    )
