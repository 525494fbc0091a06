-- ===== src/Driver/Slots.antt =====
-- get_h2t_buffer and get_mgmt_buffer of streaming/src/intel_st_debug_if_st_dbg_ip_driver.c: the
-- bookkeeping of descriptor slots and of the memory that they hold. The two functions have the same
-- text over two sets of globals.
pub mod Chain
pub mod Queue
pub mod Refine
pub mod Poll
mod Tests
use remote_debug_for_intel_f.Prelude.{
  ℕ, zero, suc, ◌+◌, ◌-◌, ◌%◌, ◌^◌, Bool, true, false, ◌&&◌, List, Option, none, some, Run, ◌>>=◌,
  ◌>>◌, pure, get_or, set, u8, u16, u32, u64, sub32, ltb, leb, ◌==◌, if◌then◌else◌,
}
use remote_debug_for_intel_f.Prelude.Int.{ℤ}
use remote_debug_for_intel_f.CircleBuff.{CircleBuff, cbuff_free, cbuff_alloc}
use remote_debug_for_intel_f.Mmio.{Mmio}
use remote_debug_for_intel_f.Driver.Reg
use remote_debug_for_intel_f.Driver.{max_descriptor_depth, get_aligned_sz, Descriptors, Device}

-- `char i` as the pattern of its byte; whether `char` is signed is up to the compiler.
-- The conversion of `i` to uint32_t in `i < freed_descriptor_slots`.
abbrev pub char_to_u32 : Bool → ℕ → ℕ
char_to_u32 char_is_signed i = if char_is_signed && leb 128 i then 2 ^ 32 + i - 256 else i

-- The index `(read_idx + i) % MAX_H2T_DESCRIPTOR_DEPTH`, in `int`: a negative remainder is outside
-- the array.
abbrev pub chain_index : Bool → ℕ → ℕ → Option ℕ
chain_index char_is_signed read_idx i =
    if char_is_signed && leb 128 i
    then (if leb 256 (read_idx + i)
        then some ((read_idx + i - 256) % max_descriptor_depth)
        else if (256 - (read_idx + i)) % max_descriptor_depth == 0
        then some 0
        else none)
    else some ((read_idx + i) % max_descriptor_depth)

-- The loop that adds up `bytes_freed`. The byte `i` takes 256 values, so that a loop of more rounds
-- never ends: without fuel there is no result, as after an access outside the array.
unfoldable pub free_loop :
    Bool → (fuel : ℕ) → List ℕ → (read_idx freed i bytes_freed : ℕ) → Option ℕ
free_loop char_is_signed zero chain read_idx freed i bytes_freed = none
free_loop char_is_signed (suc fuel) chain read_idx freed i bytes_freed =
    elim (ltb (char_to_u32 char_is_signed i) freed) [
      | true ↦ elim (chain_index char_is_signed read_idx i) [
        | none ↦ none
        | some k ↦
            free_loop char_is_signed fuel chain read_idx freed (u8 (i + 1))
              (u64 (bytes_freed + get_or chain k 0))
      ]
      | false ↦ some bytes_freed
    ]

-- A function of the ring inside the descriptors.
abbrev on_cbuff : {A : Type 0} → Run CircleBuff A → Run Descriptors A
on_cbuff f q = elim (f q.rx_cbuff) [
  | none ↦ none
  | some (a, c) ↦ some (a, record q { rx_cbuff = c })
]

-- What `get_h2t_buffer` does with the slots that the hardware has freed.
unfoldable pub free_slots : Bool → (freed : ℕ) → Run Descriptors (Unit {0})
free_slots char_is_signed freed q =
    if ltb 0 freed
    then elim (free_loop char_is_signed 257 q.chain q.read_idx freed 0 0) [
      | none ↦ none
      | some bytes_freed ↦ on_cbuff (cbuff_free bytes_freed) (record q {
        slots_available = u16 (q.slots_available + freed);
        read_idx = u32 (q.read_idx + freed) % max_descriptor_depth;
      })
    ]
    else some (tt, q)

-- The rest of `get_h2t_buffer`: the address, or 0.
unfoldable pub take_slot : (sz : ℕ) → Run Descriptors ℕ
take_slot sz q =
    if ltb 0 q.slots_available && leb (get_aligned_sz sz) q.rx_cbuff.space_available
    then on_cbuff (cbuff_alloc (get_aligned_sz sz)) (record q {
      chain = set q.chain (q.write_idx % max_descriptor_depth) (u16 (get_aligned_sz sz));
      write_idx = u16 (q.write_idx + 1);
    })
    else some (0, q)

-- The text that the two functions share, once the register has been read.
unfoldable pub get_buffer : Bool → (available sz : ℕ) → Run Descriptors ℕ
get_buffer char_is_signed available sz q =
    (do free_slots char_is_signed (sub32 available q.slots_available); take_slot sz) q

module _ {X : Type 0} (m : Mmio X) (char_is_signed : Bool) where
  unfoldable pub get_h2t_buffer : (sz : ℕ) → Run (Device X) ℕ
  get_h2t_buffer sz d =
      let (available, hw) = m.read_32 d.drv.mmio_handle Reg.h2t_available_slots d.hw in
      elim (get_buffer char_is_signed available sz d.drv.h2t) [
        | none ↦ none
        | some (a, q) ↦ some (a, record { drv = record (d.drv) { h2t = q }; hw = hw })
      ]

  unfoldable pub get_mgmt_buffer : (sz : ℕ) → Run (Device X) ℕ
  get_mgmt_buffer sz d =
      let (available, hw) = m.read_32 d.drv.mmio_handle Reg.mgmt_available_slots d.hw in
      elim (get_buffer char_is_signed available sz d.drv.mgmt) [
        | none ↦ none
        | some (a, q) ↦ some (a, record { drv = record (d.drv) { mgmt = q }; hw = hw })
      ]
