-- ===== src/Interfaces.antt =====
-- The table of interfaces, protodrv_api/common/src/intel_fpga_api_cmn_inf.c and its header, and the
-- interrupt functions of protodrv_api/uio/src/intel_fpga_api_uio.c.
pub mod Table
mod Tests
use remote_debug_for_intel_f.Prelude.{
  ℕ, ◌+◌, ◌-◌, ◌^◌, Bool, true, false, not, ◌&&◌, List, [], ◌++◌, Option, none, some, Run, ltb,
  ◌==◌, if◌then◌else◌, get_elem?, set, replicate, u32,
}
use remote_debug_for_intel_f.Prelude.Int.{ℤ, pos, negsuc, minus_one}

-- FPGA_INTERFACE_INFO. A pointer is its address, and 0 is NULL.
pub record InterfaceInfo : Type 0 where
  pub version : ℕ
  pub mfg_id : ℕ
  pub type_id : ℕ
  pub instance_id : ℕ
  pub group_id : ℕ
  pub subsystem_id : ℕ
  pub base_address : ℕ
  pub interrupt : ℕ
  pub is_mmio_opened : Bool
  pub is_interrupt_opened : Bool
  pub interrupt_enable : Bool
  pub isr_callback : ℕ
  pub isr_context : ℕ

-- An entry of zero bytes.
abbrev pub zero_info : InterfaceInfo
zero_info = record {
  version = 0;
  mfg_id = 0;
  type_id = 0;
  instance_id = 0;
  group_id = 0;
  subsystem_id = 0;
  base_address = 0;
  interrupt = 0;
  is_mmio_opened = false;
  is_interrupt_opened = false;
  interrupt_enable = false;
  isr_callback = 0;
  isr_context = 0;
}

-- The three globals; `vec` holds the entries of the allocated block.
pub record InterfaceVec : Type 0 where
  pub vec : List InterfaceInfo
  pub vec_size : ℕ
  pub vec_reserved : ℕ

abbrev pub initial_vec : InterfaceVec
initial_vec = record { vec = []; vec_size = 0; vec_reserved = 0 }

-- The conversion of a 32-bit `unsigned int` to `int`.
abbrev pub to_int : ℕ → ℤ
to_int n = if ltb n (2 ^ 31) then pos n else negsuc (2 ^ 32 - 1 - n)

-- An access to the entry at `index`, and its update.
abbrev pub on_entry :
    {A : Type 0} → (index : ℕ) → (InterfaceInfo → A × InterfaceInfo) → Run InterfaceVec A
on_entry index f v = elim (get_elem? v.vec index) [
  | none ↦ none
  | some info ↦ let (a, info') = f info in some (a, record v { vec = set v.vec index info' })
]

unfoldable pub fpga_get_num_of_interfaces : InterfaceVec → ℕ
fpga_get_num_of_interfaces v = u32 v.vec_size

-- `*info`, which is not NULL, where the result is true.
unfoldable pub fpga_get_interface_at : (index : ℕ) → Run InterfaceVec (Option InterfaceInfo)
fpga_get_interface_at index v =
    if ltb index v.vec_size
    then elim (get_elem? v.vec index) [ none ↦ none | some info ↦ some (some info, v) ]
    else some (none, v)

unfoldable pub fpga_open : (index : ℕ) → Run InterfaceVec ℤ
fpga_open index v =
    if ltb index v.vec_size
    then on_entry index
        (λ info.
          if not info.is_mmio_opened
          then (to_int index, record info { is_mmio_opened = true })
          else (minus_one, info))
        v
    else some (minus_one, v)

unfoldable pub fpga_close : (index : ℕ) → Run InterfaceVec (Unit {0})
fpga_close index v =
    if ltb index v.vec_size
    then on_entry index (λ info. (tt, record info { is_mmio_opened = false })) v
    else some (tt, v)

unfoldable pub fpga_interrupt_open : (index : ℕ) → Run InterfaceVec ℤ
fpga_interrupt_open index v =
    if ltb index v.vec_size
    then on_entry index
        (λ info.
          if not info.is_interrupt_opened
          then (to_int index, record info { is_interrupt_opened = true })
          else (minus_one, info))
        v
    else some (minus_one, v)

unfoldable pub fpga_interrupt_close : (index : ℕ) → Run InterfaceVec (Unit {0})
fpga_interrupt_close index v =
    if ltb index v.vec_size
    then on_entry index (λ info. (tt, record info { is_interrupt_opened = false })) v
    else some (tt, v)

-- `has_memory`: does `realloc` give the block? Where it does not, the exception handler ends the
-- program, and there is no result.
unfoldable pub common_fpga_interface_info_vec_reserve :
    (has_memory : Bool) (size : ℕ) → Run InterfaceVec (Unit {0})
common_fpga_interface_info_vec_reserve has_memory size v =
    if ltb v.vec_reserved size
    then if has_memory
      then some (
        tt,
        record v {
          vec = v.vec ++ replicate (size - v.vec_reserved) zero_info;
          vec_reserved = size;
        },
      )
      else none
    else if size == 0
    then some (tt, record v { vec = []; vec_reserved = 0; vec_size = 0 })
    else some (tt, v)

unfoldable pub common_fpga_interface_info_vec_resize :
    (has_memory : Bool) (size : ℕ) → Run InterfaceVec (Unit {0})
common_fpga_interface_info_vec_resize has_memory size v =
    elim (common_fpga_interface_info_vec_reserve has_memory size v) [
      | none ↦ none
      | some (_, v') ↦ some (tt, record v' { vec_size = size })
    ]

-- A handle is an `int`, which the comparison converts to size_t: a negative one is out of range.
abbrev on_handle : ℤ → (InterfaceInfo → ℤ × InterfaceInfo) → Run InterfaceVec ℤ
on_handle (pos handle) f v =
    if ltb handle v.vec_size then on_entry handle f v else some (minus_one, v)
on_handle (negsuc _) f v = some (minus_one, v)

unfoldable pub fpga_register_isr : ℤ → (isr isr_context : ℕ) → Run InterfaceVec ℤ
fpga_register_isr handle isr isr_context = on_handle handle (λ info. (
  (if info.isr_callback == 0 then pos 0 else pos 1),
  record info { isr_callback = isr; isr_context = isr_context },
))

-- The semaphore that it posts where its value is 0: `g_intSem`, beside the table.
unfoldable pub fpga_enable_interrupt : ℤ → (sem : ℕ) → Run InterfaceVec (ℤ × ℕ)
fpga_enable_interrupt (negsuc _) sem v = some ((minus_one, sem), v)
fpga_enable_interrupt (pos handle) sem v =
    if ltb handle v.vec_size
    then on_entry handle
        (λ info. ((pos 0, if sem == 0 then 1 else sem), record info { interrupt_enable = true })) v
    else some ((minus_one, sem), v)

unfoldable pub fpga_disable_interrupt : ℤ → Run InterfaceVec ℤ
fpga_disable_interrupt handle =
    on_handle handle (λ info. (pos 0, record info { interrupt_enable = false }))
