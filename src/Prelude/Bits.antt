-- ===== src/Prelude/Bits.antt =====
-- Masks and fields of machine words as arithmetic, at every width.
use Prim.Native.Nat.{ℕ, zero, suc, ◌+◌, ◌-◌, ◌*◌, ◌/◌, ◌%◌, ◌^◌, ◌≤◌, ◌<◌, min, max}
use Prim.Native.Nat.{bit_and, bit_or, digits, bit_and-bitwise, bit_or-bitwise}
use mathlib.Core.Path.{◌≡◌, refl, ap}
use native.Mathlib.Nat.{
  two-pow-succ, one-le-pow, div-div-eq-div-mul, mul-add-mod_self_right, mod-eq_of_lt, mod-lt,
  div-add-mod',
}
use native.Mathlib.Omega.{arith}

-- Any fuel from the left operand on gives the same digits.
module _ (last : ℕ → ℕ) (digit : ℕ → ℕ → ℕ) where
  enough : (k m x y : ℕ) → x ≤ k → x ≤ m → digits last digit k x y ≡ digits last digit m x y
  enough zero zero x y p q = refl
  enough zero (suc m) zero y p q = refl
  enough zero (suc m) (suc x) y p q = absurd (omega arith)
  enough (suc k) zero zero y p q = refl
  enough (suc k) zero (suc x) y p q = absurd (omega arith)
  enough (suc k) (suc m) zero y p q = refl
  enough (suc k) (suc m) (suc x) y p q =
      ap (λ t. t * 2 + digit (suc x % 2) (y % 2))
        (enough k m (suc x / 2) (y / 2) (omega arith) (omega arith))

-- The lowest binary digit of a conjunction, and of a disjunction.
pub and_low : (x y : ℕ) → bit_and x y ≡ bit_and (x / 2) (y / 2) * 2 + min (x % 2) (y % 2)
and_low zero y = omega (arith, bit_and-bitwise 0 y, bit_and-bitwise 0 (y / 2))
and_low (suc x) y = omega (
  arith,
  bit_and-bitwise (suc x) y,
  bit_and-bitwise (suc x / 2) (y / 2),
  enough (λ b. 0) min x (suc x / 2) (suc x / 2) (y / 2) (omega arith) (omega arith),
)

pub or_low : (x y : ℕ) → bit_or x y ≡ bit_or (x / 2) (y / 2) * 2 + max (x % 2) (y % 2)
or_low zero y = omega (arith, bit_or-bitwise 0 y, bit_or-bitwise 0 (y / 2))
or_low (suc x) y = omega (
  arith,
  bit_or-bitwise (suc x) y,
  bit_or-bitwise (suc x / 2) (y / 2),
  enough (λ b. b) max x (suc x / 2) (suc x / 2) (y / 2) (omega arith) (omega arith),
)

zero-and : (y : ℕ) → bit_and 0 y ≡ 0
zero-and y = bit_and-bitwise 0 y

zero-or : (y : ℕ) → bit_or 0 y ≡ y
zero-or y = bit_or-bitwise 0 y

and-zero_within : (k x : ℕ) → x ≤ k → bit_and x 0 ≡ 0
and-zero_within zero zero h = zero-and 0
and-zero_within zero (suc x) h = absurd (omega arith)
and-zero_within (suc k) zero h = zero-and 0
and-zero_within (suc k) (suc x) h =
    omega (arith, and_low (suc x) 0, and-zero_within k (suc x / 2) (omega arith))

pub and-zero : (x : ℕ) → bit_and x 0 ≡ 0
and-zero x = and-zero_within x x (omega arith)

or-zero_within : (k x : ℕ) → x ≤ k → bit_or x 0 ≡ x
or-zero_within zero zero h = zero-or 0
or-zero_within zero (suc x) h = absurd (omega arith)
or-zero_within (suc k) zero h = zero-or 0
or-zero_within (suc k) (suc x) h =
    omega (arith, or_low (suc x) 0, or-zero_within k (suc x / 2) (omega arith))

pub or-zero : (x : ℕ) → bit_or x 0 ≡ x
or-zero x = or-zero_within x x (omega arith)

doubles : (y k : ℕ) → y * 2 ^ suc k ≡ 2 * (y * 2 ^ k)
doubles y k = omega (arith, ap (λ (t : ℕ). y * t) (two-pow-succ k))

-- A mask whose low `k` bits are zero looks only at what stands above them.
pub and-shl : (k x y : ℕ) → bit_and x (y * 2 ^ k) ≡ bit_and (x / 2 ^ k) y * 2 ^ k
and-shl zero x y = ground arith
and-shl (suc k) x y = ground (
  arith,
  and_low x (y * 2 ^ suc k),
  doubles y k,
  doubles (bit_and (x / 2 ^ suc k) y) k,
  two-pow-succ k,
  div-div-eq-div-mul x 2 (2 ^ k),
  and-shl k (x / 2) y,
)

-- A field put above `k` bits that are in use is added to them.
pub or-shl : (k x y : ℕ) → x < 2 ^ k → bit_or x (y * 2 ^ k) ≡ x + y * 2 ^ k
or-shl zero x y h = let e : x ≡ 0 = omega arith in rw e (omega (arith, zero-or (y * 1)))
or-shl (suc k) x y h =
    ground (arith, or_low x (y * 2 ^ suc k), doubles y k, two-pow-succ k, or-shl k (x / 2) y)

-- One binary digit goes from the quotient by 2 to the number.
mod_double : (k x : ℕ) → x % 2 ^ suc k ≡ x / 2 % 2 ^ k * 2 + x % 2
mod_double k x = ground (
  arith,
  two-pow-succ k,
  one-le-pow k 2,
  doubles (x / 2 / 2 ^ k) k,
  div-add-mod' (x / 2) (2 ^ k),
  mod-lt (x / 2) {m = 2 ^ k},
  mul-add-mod_self_right (x / 2 / 2 ^ k) (2 ^ suc k) (x / 2 % 2 ^ k * 2 + x % 2),
  mod-eq_of_lt {n = x / 2 % 2 ^ k * 2 + x % 2} {m = 2 ^ suc k},
)

-- The mask of the low `k` bits is the remainder by `2 ^ k`.
pub and_mask : (k x : ℕ) → bit_and x (2 ^ k - 1) ≡ x % 2 ^ k
and_mask zero x = omega (arith, and-zero x)
and_mask (suc k) x = ground (
  arith,
  two-pow-succ k,
  one-le-pow k 2,
  mod_double k x,
  and_low x (2 ^ suc k - 1),
  and_mask k (x / 2),
)

-- The mask of bit `k` alone.
pub and_bit : (k x : ℕ) → bit_and x (2 ^ k) ≡ x / 2 ^ k % 2 * 2 ^ k
and_bit k x = ground (arith, and-shl k x 1, and_low (x / 2 ^ k) 1, and-zero (x / 2 ^ k / 2))
