-- ===== src/Uio/Access/Emulation.antt =====
-- protodrv_api/uio/inc/intel_fpga_api_uio.h on plain memory: the 64-bit accesses made of two halves,
-- and reading back what was written.
use remote_debug_for_intel_f.Prelude.{
  ℕ, ◌+◌, ◌^◌, ◌≤◌, ◌<◌, Bool, true, false, List, some, ◌≡◌, refl, sym, ◌∙◌, arith, bit_or, u32,
  u64, shl, shr, length, ◌>>=◌, ◌>>◌, pure,
}
use remote_debug_for_intel_f.Prelude.Int.{ℤ}
use remote_debug_for_intel_f.Interfaces.{InterfaceVec}
use remote_debug_for_intel_f.Uio.Access.{
  ram, ram_load, ram_store, fpga_uio_get_base_address, fpga_read, fpga_write, fpga_read_64,
  fpga_write_64,
}
use remote_debug_for_intel_f.Uio.Access.Bytes.{IsBytes}
use remote_debug_for_intel_f.Uio.Access.Ram.{load_halves, store_halves, store_load}

-- An access whose bytes lie below the end of the address space, behind the start of the memory.
unfoldable pub Placed : (start : ℕ) (v : InterfaceVec) (handle : ℤ) (offset at n : ℕ) → Type 0
Placed start v handle offset at n =
    (base : ℕ) × (fpga_uio_get_base_address v handle ≡ some base)
    × (base + offset ≡ start + at)
    × (offset + n < 2 ^ 32)
    × (start + at + n < 2 ^ 64)

module _ (start : ℕ) (v : InterfaceVec) (handle : ℤ) (offset at : ℕ) where
  pub read_at :
      (n k : ℕ) (bytes : List ℕ)
      → Placed start v handle offset at k
      → fpga_read (ram start) v handle n offset bytes ≡ ram_load start n (start + at) bytes
  unfolding fpga_read Placed
  read_at n k bytes (base, e, b, o, p) =
      let a : u64 (base + offset) ≡ start + at = omega arith in rw (fpga_read, e, a) refl

  read_next :
      (n : ℕ) (bytes : List ℕ)
      → Placed start v handle offset at 4
      → fpga_read (ram start) v handle n (u32 (offset + 4)) bytes
        ≡ ram_load start n (start + (at + 4)) bytes
  unfolding fpga_read Placed
  read_next n bytes (base, e, b, o, p) =
      let a : u64 (base + u32 (offset + 4)) ≡ start + (at + 4) = omega arith in
      rw (fpga_read, e, a) refl

  fpga_read_64-halves :
      (bytes : List ℕ)
      → IsBytes bytes
      → Placed start v handle offset at 4
      → fpga_read_64 (ram start) v handle true offset bytes
        ≡ fpga_read_64 (ram start) v handle false offset bytes
  unfolding fpga_read_64
  fpga_read_64-halves bytes h p =
      (λ i.
        ((λ x. read_at 4 4 x p i) >>= λ low.
        (λ x. read_next 4 x p i) >>= λ high. pure (bit_or low (shl high 32)))
          bytes)
      ∙ load_halves start at bytes h
      ∙ sym (read_at 8 4 bytes p)

  pub write_at :
      (n k value : ℕ) (bytes : List ℕ)
      → Placed start v handle offset at k
      → fpga_write (ram start) v handle n offset value bytes
        ≡ ram_store start n (start + at) value bytes
  unfolding fpga_write Placed
  write_at n k value bytes (base, e, b, o, p) =
      let a : u64 (base + offset) ≡ start + at = omega arith in rw (fpga_write, e, a) refl

  write_next :
      (n value : ℕ) (bytes : List ℕ)
      → Placed start v handle offset at 4
      → fpga_write (ram start) v handle n (u32 (offset + 4)) value bytes
        ≡ ram_store start n (start + (at + 4)) value bytes
  unfolding fpga_write Placed
  write_next n value bytes (base, e, b, o, p) =
      let a : u64 (base + u32 (offset + 4)) ≡ start + (at + 4) = omega arith in
      rw (fpga_write, e, a) refl

  fpga_write_64-halves :
      (value : ℕ) (bytes : List ℕ)
      → Placed start v handle offset at 4
      → fpga_write_64 (ram start) v handle true offset value bytes
        ≡ fpga_write_64 (ram start) v handle false offset value bytes
  unfolding fpga_write_64
  fpga_write_64-halves value bytes p =
      (λ i.
        ((λ x. write_at 4 4 (u32 value) x p i) >> (λ x. write_next 4 (u32 (shr value 32)) x p i))
          bytes)
      ∙ store_halves start at value bytes
      ∙ sym (write_at 8 4 value bytes p)

  pub either_read :
      (emulate : Bool) (bytes : List ℕ)
      → IsBytes bytes
      → Placed start v handle offset at 4
      → fpga_read_64 (ram start) v handle emulate offset bytes
        ≡ fpga_read (ram start) v handle 8 offset bytes
  unfolding fpga_read_64
  either_read false bytes h p = refl
  either_read true bytes h p = fpga_read_64-halves bytes h p

  pub either_write :
      (emulate : Bool) (value : ℕ) (bytes : List ℕ)
      → Placed start v handle offset at 4
      → fpga_write_64 (ram start) v handle emulate offset value bytes
        ≡ fpga_write (ram start) v handle 8 offset value bytes
  unfolding fpga_write_64
  either_write false value bytes p = refl
  either_write true value bytes p = fpga_write_64-halves value bytes p

-- On plain memory of bytes, at an offset where neither half wraps around: `fpga_read_64` and
-- `fpga_write_64` made of two 32-bit accesses do the same as with one 64-bit access, also where the
-- access faults.
pub emulated_is_native :
    (start : ℕ) (v : InterfaceVec) (handle : ℤ) (offset at value : ℕ) (bytes : List ℕ)
    → Placed start v handle offset at 4
    → IsBytes bytes
    → (fpga_read_64 (ram start) v handle true offset bytes
        ≡ fpga_read_64 (ram start) v handle false offset bytes)
      × (fpga_write_64 (ram start) v handle true offset value bytes
          ≡ fpga_write_64 (ram start) v handle false offset value bytes)
emulated_is_native start v handle offset at value bytes p h = (
  fpga_read_64-halves start v handle offset at bytes h p,
  fpga_write_64-halves start v handle offset at value bytes p,
)

-- On plain memory of bytes, at an offset whose eight bytes lie inside it, below 2^32 as offsets and
-- below 2^64 as addresses: a 64-bit value that `fpga_write_64` writes is what `fpga_read_64` reads
-- back, whether each of the two is compiled as one access or as two halves.
pub fpga_read_64-fpga_write_64 :
    (start : ℕ) (v : InterfaceVec) (handle : ℤ) (offset at : ℕ) (writer reader : Bool) (value : ℕ)
    (bytes : List ℕ)
    → Placed start v handle offset at 4
    → IsBytes bytes
    → at + 8 ≤ length bytes
    → value < 2 ^ 64
    → (bytes' : List ℕ) × (fpga_write_64 (ram start) v handle writer offset value bytes
        ≡ some (tt, bytes'))
      × (fpga_read_64 (ram start) v handle reader offset bytes' ≡ some (value, bytes'))
fpga_read_64-fpga_write_64 start v handle offset at writer reader value bytes p h room small =
    let (bytes', stored, loaded, h') = store_load start 8 at value bytes h room (omega arith) in
    (
      bytes',
      either_write start v handle offset at writer value bytes p
          ∙ write_at start v handle offset at 8 4 value bytes p
          ∙ stored,
      either_read start v handle offset at reader bytes' h' p
          ∙ read_at start v handle offset at 8 4 bytes' p
          ∙ loaded,
    )
