-- ===== src/Uio/Access.antt =====
-- protodrv_api/uio/inc/intel_fpga_api_uio.h: the register accesses of an interface. What a volatile
-- access does is a parameter, `Bus`; `ram` is plain memory. Pointers are addresses.
pub mod Bytes
mod Ram
pub mod Emulation
pub mod Words
pub mod Copy
pub mod Pieces
mod Tests
use remote_debug_for_intel_f.Prelude.{
  ℕ, zero, suc, ◌+◌, ◌-◌, ◌*◌, Bool, true, false, List, Option, none, some, Run, ◌>>=◌, ◌>>◌, pure,
  bit_or, u32, u64, shl, shr, ltb, if◌then◌else◌, get_elem?, slice, blit, of_bytes, to_bytes,
}
use remote_debug_for_intel_f.Prelude.Int.{ℤ, pos, negsuc}
use remote_debug_for_intel_f.Mmio.{Mmio}
use remote_debug_for_intel_f.Interfaces.{InterfaceVec}

-- `n` bytes at an address, as a number. A machine that faults gives none.
pub record Bus (X : Type 0) : Type 0 where
  pub load : (n address : ℕ) → Run X ℕ
  pub store : (n address value : ℕ) → Run X (Unit {0})

-- Plain memory from the address `start` on, with the low byte first.
unfoldable pub ram_load : (start n address : ℕ) → Run (List ℕ) ℕ
ram_load start n address bytes =
    if ltb address start then none else elim (slice bytes (address - start) n) [
      | none ↦ none
      | some word ↦ some (of_bytes word, bytes)
    ]

unfoldable pub ram_store : (start n address value : ℕ) → Run (List ℕ) (Unit {0})
ram_store start n address value bytes =
    if ltb address start then none else elim (blit bytes (address - start) (to_bytes n value)) [
      | none ↦ none
      | some bytes' ↦ some (tt, bytes')
    ]

abbrev pub ram : (start : ℕ) → Bus (List ℕ)
ram start = record { load = ram_load start; store = ram_store start }

-- `common_fpga_interface_info_vec_at(handle)->base_address`; outside the block that is a fault.
unfoldable pub fpga_uio_get_base_address : InterfaceVec → ℤ → Option ℕ
fpga_uio_get_base_address v (negsuc _) = none
fpga_uio_get_base_address v (pos handle) = elim (get_elem? v.vec handle) [
  | none ↦ none
  | some info ↦ some info.base_address
]

module _ {X : Type 0} (bus : Bus X) (v : InterfaceVec) (handle : ℤ) where
  -- The accesses of `n` bytes, by which those of 8, 16 and 32 bits are defined.
  unfoldable pub fpga_read : (n offset : ℕ) → Run X ℕ
  fpga_read n offset x = elim (fpga_uio_get_base_address v handle) [
    | none ↦ none
    | some base ↦ bus.load n (u64 (base + offset)) x
  ]

  unfoldable pub fpga_write : (n offset value : ℕ) → Run X (Unit {0})
  fpga_write n offset value x = elim (fpga_uio_get_base_address v handle) [
    | none ↦ none
    | some base ↦ bus.store n (u64 (base + offset)) value x
  ]

  abbrev fpga_read_8 : (offset : ℕ) → Run X ℕ
  fpga_read_8 = fpga_read 1

  abbrev fpga_write_8 : (offset value : ℕ) → Run X (Unit {0})
  fpga_write_8 = fpga_write 1

  abbrev fpga_read_16 : (offset : ℕ) → Run X ℕ
  fpga_read_16 = fpga_read 2

  abbrev fpga_write_16 : (offset value : ℕ) → Run X (Unit {0})
  fpga_write_16 = fpga_write 2

  abbrev fpga_read_32 : (offset : ℕ) → Run X ℕ
  fpga_read_32 = fpga_read 4

  abbrev fpga_write_32 : (offset value : ℕ) → Run X (Unit {0})
  fpga_write_32 = fpga_write 4

  -- FPGA_PLATFORM_FORCE_64BIT_MMIO_EMULATION_WITH_32BIT chooses two halves, the low one first.
  unfoldable pub fpga_read_64 : (emulate : Bool) (offset : ℕ) → Run X ℕ
  fpga_read_64 false offset = fpga_read 8 offset
  fpga_read_64 true offset = do
    low ← fpga_read_32 offset
    high ← fpga_read_32 (u32 (offset + 4))
    pure (bit_or low (shl high 32))

  unfoldable pub fpga_write_64 : (emulate : Bool) (offset value : ℕ) → Run X (Unit {0})
  fpga_write_64 false offset value = fpga_write 8 offset value
  fpga_write_64 true offset value = do
    fpga_write_32 offset (u32 value)
    fpga_write_32 (u32 (offset + 4)) (u32 (shr value 32))

  -- The loop of fpga_read_512 and fpga_write_512 over `n` words, with the byte array of the host.
  unfoldable pub read_words :
      (emulate : Bool) (n offset : ℕ) (host : List ℕ) (at : ℕ) → Run X (List ℕ)
  read_words emulate zero offset host at x = some (host, x)
  read_words emulate (suc n) offset host at x = elim (fpga_read_64 emulate offset x) [
    | none ↦ none
    | some (word, x') ↦ elim (blit host at (to_bytes 8 word)) [
      | none ↦ none
      | some host' ↦ read_words emulate n (u32 (offset + 8)) host' (at + 8) x'
    ]
  ]

  unfoldable pub write_words :
      (emulate : Bool) (n offset : ℕ) (host : List ℕ) (at : ℕ) → Run X (Unit {0})
  write_words emulate zero offset host at x = some (tt, x)
  write_words emulate (suc n) offset host at x = elim (slice host at 8) [
    | none ↦ none
    | some word ↦ elim (fpga_write_64 emulate offset (of_bytes word) x) [
      | none ↦ none
      | some (_, x') ↦ write_words emulate n (u32 (offset + 8)) host (at + 8) x'
    ]
  ]

  unfoldable pub fpga_read_512 : (emulate : Bool) (offset : ℕ) (value : List ℕ) → Run X (List ℕ)
  fpga_read_512 emulate offset value = read_words emulate 8 offset value 0

  unfoldable pub fpga_write_512 : (emulate : Bool) (offset : ℕ) (value : List ℕ) → Run X (Unit {0})
  fpga_write_512 emulate offset value = write_words emulate 8 offset value 0

-- What an access gives, and the machine behind it.
abbrev pub have_read : {X : Type 0} → Option (ℕ × X) → ℕ × Option X
have_read none = (0, none)
have_read (some (a, x)) = (a, some x)

abbrev pub have_written : {X : Type 0} → Option (Unit {0} × X) → Option X
have_written none = none
have_written (some (_, x)) = some x

-- The registers as the driver uses them. `none` is a machine that has faulted: nothing happens then.
module _ {X : Type 0} (bus : Bus X) (v : InterfaceVec) (emulate : Bool) where
  abbrev reading : Run X ℕ → Option X → ℕ × Option X
  reading f none = (0, none)
  reading f (some x) = have_read (f x)

  abbrev writing : Run X (Unit {0}) → Option X → Option X
  writing f none = none
  writing f (some x) = have_written (f x)

  abbrev pub uio_mmio : Mmio (Option X)
  uio_mmio = record {
    read_32 = λ handle offset. reading (fpga_read_32 bus v handle offset);
    write_32 = λ handle offset value. writing (fpga_write_32 bus v handle offset value);
    read_64 = λ handle offset. reading (fpga_read_64 bus v handle emulate offset);
    write_64 = λ handle offset value. writing (fpga_write_64 bus v handle emulate offset value);
  }
