-- ===== src/Prelude/Memory.antt =====
-- Byte arrays that the C code reaches through pointers: an access outside faults. Words are stored
-- with the low byte first.
use Prim.Native.Nat.{ℕ, zero, suc, ◌+◌, ◌*◌, ◌/◌, ◌%◌, ◌≤◌}
use mathlib.Core.Option.{Option, none, some}
use mathlib.Core.List.{List, [], ◌∷◌, ◌++◌}
use mathlib.Core.Path.{◌≡◌}
use native.Mathlib.Omega.{arith}
use package.remote_debug_for_intel_f.Prelude.Tests.{leb, le→leb, if◌then◌else◌}
use package.remote_debug_for_intel_f.Prelude.Lists.{
  length, take, drop, length-append, take-append_left, drop-append_left,
}

-- bytes[i] = v
abbrev pub store : List ℕ → ℕ → ℕ → Option (List ℕ)
store [] i v = none
store (b ∷ bytes) zero v = some (v ∷ bytes)
store (b ∷ bytes) (suc i) v = elim (store bytes i v) [
  | none ↦ none
  | some bytes' ↦ some (b ∷ bytes')
]

-- Copies `src` over the bytes from `at` on.
abbrev pub blit : List ℕ → ℕ → List ℕ → Option (List ℕ)
blit bytes at src =
    if leb (at + length src) (length bytes)
    then some (take at bytes ++ src ++ drop (at + length src) bytes)
    else none

-- The `n` bytes from `at` on.
abbrev pub slice : List ℕ → ℕ → ℕ → Option (List ℕ)
slice bytes at n = if leb (at + n) (length bytes) then some (take n (drop at bytes)) else none

-- The number that bytes stand for, and the `n` low bytes of a number.
unfoldable pub of_bytes : List ℕ → ℕ
of_bytes [] = 0
of_bytes (b ∷ bs) = b + 256 * of_bytes bs

unfoldable pub to_bytes : ℕ → ℕ → List ℕ
to_bytes zero v = []
to_bytes (suc n) v = v % 256 ∷ to_bytes n (v / 256)

-- Bytes written behind what has been filled.
pub blit_behind :
    (filled room bs : List ℕ)
    → length bs ≤ length room
    → blit (filled ++ room) (length filled) bs ≡ some ((filled ++ bs) ++ drop (length bs) room)
blit_behind filled room bs h =
    let fits : length filled + length bs ≤ length (filled ++ room) =
      omega (arith, length-append filled room) in
    rw (
      le→leb (length filled + length bs) (length (filled ++ room)) fits,
      take-append_left,
      drop-append_left,
    )
