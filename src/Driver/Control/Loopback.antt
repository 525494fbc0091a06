-- ===== src/Driver/Control/Loopback.antt =====
-- Setting the loopback mode and reading it back.
use remote_debug_for_intel_f.Prelude.{
  ℕ, ◌/◌, ◌≡◌, inl, inr, Option, none, some, ◌>>◌, arith, bit_and, bit_or, ◌==◌, if◌then◌else◌,
  Bool-cases,
}
use remote_debug_for_intel_f.Prelude.Bits.{and_low, or_low, or-zero, and_bit}
use remote_debug_for_intel_f.Mmio.{Mmio}
use remote_debug_for_intel_f.Driver.{Device}
use remote_debug_for_intel_f.Driver.Reg
use remote_debug_for_intel_f.Driver.Control.{set_loopback_mode, get_loopback_mode}

low_bit_set : (x : ℕ) → bit_or x 1 / 2 ≡ x / 2
low_bit_set x = omega (arith, or_low x 1, or-zero (x / 2))

loopback_set : (rd : ℕ) → bit_and (bit_or (bit_or rd 2) 1) 2 ≡ 2
loopback_set rd = omega (
  arith,
  and_bit 1 (bit_or (bit_or rd 2) 1),
  low_bit_set (bit_or rd 2),
  or_low rd 2,
  or_low (rd / 2) 1,
)

loopback_cleared : (rd : ℕ) → bit_and (bit_or (bit_and rd 0xfffffffd) 1) 2 ≡ 0
loopback_cleared rd = omega (
  arith,
  and_bit 1 (bit_or (bit_and rd 0xfffffffd) 1),
  low_bit_set (bit_and rd 0xfffffffd),
  and_low rd 0xfffffffd,
  and_low (rd / 2) 0x7ffffffe,
)

-- The answer of a run, without the state.
abbrev pub answer : {S A : Type 0} → Option (A × S) → Option A
answer none = none
answer (some (a, _)) = some a

module _ {X : Type 0} (m : Mmio X) where
  -- On hardware whose configuration register keeps the loopback bit of what is written to it,
  -- setting the loopback mode and then reading it gives 1 for the value 1 and 0 for every other
  -- value.
  pub get_loopback_mode-set_loopback_mode :
      (val : ℕ) (d : Device X)
      → ((v : ℕ) (x : X)
          → bit_and
              ((m.read_32 d.drv.mmio_handle Reg.config_reset_and_loopback
                (m.write_32 d.drv.mmio_handle Reg.config_reset_and_loopback v x)).0)
              2
            ≡ bit_and v 2)
      → answer ((set_loopback_mode m val >> get_loopback_mode m) d)
        ≡ some (if val == 1 then 1 else 0)
  unfolding set_loopback_mode get_loopback_mode
  get_loopback_mode-set_loopback_mode val d keeps =
      let h = d.drv.mmio_handle in
      let first = m.read_32 h Reg.config_reset_and_loopback d.hw in
      elim (Bool-cases (val == 1)) [
        | inl e ↦ rw (e, keeps, loopback_set (first.0))
        | inr e ↦ rw (e, keeps, loopback_cleared (first.0))
      ]
