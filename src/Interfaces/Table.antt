-- ===== src/Interfaces/Table.antt =====
-- The table keeps its bounds, and an interface is open for one user at a time.
use remote_debug_for_intel_f.Prelude.{
  ℕ, zero, suc, ◌-◌, ◌≤◌, ◌<◌, ◌≡◌, ◌⊎◌, inl, inr, refl, ap, sym, ◌∙◌, Bool, true, false, not, List,
  [], ◌∷◌, ◌++◌, Option, some, arith, ltb, lt→ltb, le→ltb, ltb→lt, Bool-cases, length, get_elem?,
  set, replicate, length-append, length-set, zero_or_more, nonzero, length-replicate, if◌then◌else◌,
}
use mathlib.Core.Option.{some-injective}
use remote_debug_for_intel_f.Prelude.Int.{ℤ, minus_one}
use remote_debug_for_intel_f.Interfaces.{
  InterfaceInfo, InterfaceVec, on_entry, to_int, zero_info, fpga_open, fpga_close,
  common_fpga_interface_info_vec_reserve, common_fpga_interface_info_vec_resize,
}

-- The block has the entries that are counted as reserved, and the table ends inside it.
pub record IsValid (v : InterfaceVec) : Type 0 where
  pub block : length v.vec ≡ v.vec_reserved
  pub inside : v.vec_size ≤ v.vec_reserved

get_elem?-inside :
    {A : Type 0} (xs : List A) (i : ℕ) → i < length xs → (x : A) × (get_elem? xs i ≡ some x)
get_elem?-inside [] i h = absurd (omega arith)
get_elem?-inside (x ∷ xs) zero h = (x, refl)
get_elem?-inside (x ∷ xs) (suc i) h = get_elem?-inside xs i (omega arith)

get_elem?-set :
    {A : Type 0} (xs : List A) (i : ℕ) (x : A) → i < length xs → get_elem? (set xs i x) i ≡ some x
get_elem?-set [] i x h = absurd (omega arith)
get_elem?-set (y ∷ xs) zero x h = refl
get_elem?-set (y ∷ xs) (suc i) x h = get_elem?-set xs i x (omega arith)

set-same : {A : Type 0} (xs : List A) (i : ℕ) (x : A) → get_elem? xs i ≡ some x → set xs i x ≡ xs
set-same [] i x e = refl
set-same (y ∷ xs) zero x e = ap (λ z. z ∷ xs) (sym (some-injective _ _ e))
set-same (y ∷ xs) (suc i) x e = ap (λ l. y ∷ l) (set-same xs i x e)

-- The table after the entry at `index` has been changed.
abbrev with_entry : InterfaceVec → ℕ → InterfaceInfo → InterfaceVec
with_entry v index info = record v { vec = set v.vec index info }

-- What fpga_open answers and leaves at an entry, open already or not.
abbrev opens_if : (is_open : Bool) (index : ℕ) → InterfaceInfo → ℤ × InterfaceInfo
opens_if is_open index info =
    if not is_open then (to_int index, record info { is_mmio_opened = true }) else (minus_one, info)

abbrev opens : ℕ → InterfaceInfo → ℤ × InterfaceInfo
opens index info = opens_if info.is_mmio_opened index info

open_at :
    (v : InterfaceVec) (index : ℕ) (info : InterfaceInfo)
    → index < v.vec_size
    → get_elem? v.vec index ≡ some info
    → fpga_open index v ≡ some ((opens index info).0, with_entry v index ((opens index info).1))
unfolding fpga_open
open_at v index info h at = rw (lt→ltb index v.vec_size h, on_entry, at)

close_at :
    (v : InterfaceVec) (index : ℕ) (info : InterfaceInfo)
    → index < v.vec_size
    → get_elem? v.vec index ≡ some info
    → fpga_close index v ≡ some (tt, with_entry v index (record info { is_mmio_opened = false }))
unfolding fpga_close
close_at v index info h at = rw (lt→ltb index v.vec_size h, on_entry, at)

opens-opened : (index : ℕ) (info : InterfaceInfo) → ((opens index info).1).is_mmio_opened ≡ true
opens-opened index info = elim (Bool-cases info.is_mmio_opened) [
  | inl e ↦ ap (λ b. (opens_if b index info).1.is_mmio_opened) e ∙ e
  | inr e ↦ ap (λ b. (opens_if b index info).1.is_mmio_opened) e
]

-- An entry that is open stays as it is.
open_again :
    (v : InterfaceVec) (index : ℕ) (info : InterfaceInfo)
    → index < v.vec_size
    → get_elem? v.vec index ≡ some info
    → info.is_mmio_opened ≡ true
    → fpga_open index v ≡ some (minus_one, v)
open_again v index info h at e =
    let after : Bool → Option (ℤ × InterfaceVec) =
      λ b. some ((opens_if b index info).0, with_entry v index ((opens_if b index info).1)) in
    open_at v index info h at
    ∙ ap after e
    ∙ ap (λ l. some (minus_one, record v { vec = l })) (set-same v.vec index info at)

-- In a table that keeps its bounds, `fpga_open` of an interface in range returns, a second
-- `fpga_open` is refused and changes nothing, and after `fpga_close` the next `fpga_open` gives the
-- index as the handle.
pub fpga_open-exclusive :
    (v : InterfaceVec) (index : ℕ)
    → IsValid v
    → index < v.vec_size
    → (r : ℤ) × (v1 v2 v3 : InterfaceVec) × (fpga_open index v ≡ some (r, v1))
      × (fpga_open index v1 ≡ some (minus_one, v1))
      × (fpga_close index v1 ≡ some (tt, v2))
      × (fpga_open index v2 ≡ some (to_int index, v3))
fpga_open-exclusive v index k h =
    let found = get_elem?-inside v.vec index (omega (arith, k.block, k.inside)) in
    let info = found.0 in
    let now : InterfaceInfo = (opens index info).1 in
    let v1 = with_entry v index now in
    let at1 = get_elem?-set v.vec index now (omega (arith, k.block, k.inside)) in
    let shut : InterfaceInfo = record now { is_mmio_opened = false } in
    let v2 = with_entry v1 index shut in
    let at2 =
      get_elem?-set v1.vec index shut
        (omega (arith, k.block, k.inside, length-set v.vec index now)) in
    (
      (opens index info).0,
      v1,
      v2,
      with_entry v2 index (opens index shut).1,
      open_at v index info h (found.1),
      open_again v1 index now h at1 (opens-opened index info),
      close_at v1 index now h at1,
      open_at v2 index shut h at2,
    )

reserve_more :
    (size : ℕ) (v : InterfaceVec)
    → v.vec_reserved < size
    → common_fpga_interface_info_vec_resize true size v
      ≡ some (
        tt,
        record {
          vec = v.vec ++ replicate (size - v.vec_reserved) zero_info;
          vec_size = size;
          vec_reserved = size;
        },
      )
unfolding common_fpga_interface_info_vec_resize common_fpga_interface_info_vec_reserve
reserve_more size v h = rw (
  lt→ltb v.vec_reserved size h,
  common_fpga_interface_info_vec_resize,
  common_fpga_interface_info_vec_reserve,
)

reserve_none :
    (has_memory : Bool) (v : InterfaceVec)
    → common_fpga_interface_info_vec_resize has_memory 0 v
      ≡ some (tt, record { vec = []; vec_size = 0; vec_reserved = 0 })
unfolding common_fpga_interface_info_vec_resize common_fpga_interface_info_vec_reserve
reserve_none has_memory v = rw (
  le→ltb v.vec_reserved 0 (omega arith),
  common_fpga_interface_info_vec_resize,
  common_fpga_interface_info_vec_reserve,
)

reserve_same :
    (has_memory : Bool) (size : ℕ) (v : InterfaceVec)
    → 0 < size
    → size ≤ v.vec_reserved
    → common_fpga_interface_info_vec_resize has_memory size v
      ≡ some (tt, record v { vec_size = size })
unfolding common_fpga_interface_info_vec_resize common_fpga_interface_info_vec_reserve
reserve_same has_memory size v some_entries h = rw (
  le→ltb v.vec_reserved size h,
  nonzero size some_entries,
  common_fpga_interface_info_vec_resize,
  common_fpga_interface_info_vec_reserve,
)

-- Of a table that keeps its bounds, resizing gives a table of the new size that keeps them, if
-- there is memory for a larger block or the block is large enough already.
pub common_fpga_interface_info_vec_resize-IsValid :
    (has_memory : Bool) (size : ℕ) (v : InterfaceVec)
    → IsValid v
    → (has_memory ≡ true) ⊎ (size ≤ v.vec_reserved)
    → (v' : InterfaceVec) × (common_fpga_interface_info_vec_resize has_memory size v
        ≡ some (tt, v'))
      × IsValid v'
      × (v'.vec_size ≡ size)
common_fpga_interface_info_vec_resize-IsValid has_memory size v k room =
    elim (Bool-cases (ltb v.vec_reserved size)) [
      | inl more ↦ elim room [
        | inl e ↦ (
          _,
          ap (λ b. common_fpga_interface_info_vec_resize b size v) e
              ∙ reserve_more size v (ltb→lt v.vec_reserved size more),
          record {
            block = omega (
              arith,
              k.block,
              ltb→lt v.vec_reserved size more,
              length-append v.vec (replicate (size - v.vec_reserved) zero_info),
              length-replicate (size - v.vec_reserved) zero_info,
            );
            inside = omega arith;
          },
          refl,
        )
        | inr h ↦ absurd (omega (arith, ltb→lt v.vec_reserved size more))
      ]
      | inr less ↦ elim (zero_or_more size) [
        | inl e ↦ (
          _,
          ap (λ n. common_fpga_interface_info_vec_resize has_memory n v) e
              ∙ reserve_none has_memory v,
          record { block = refl; inside = omega arith },
          sym e,
        )
        | inr h ↦ (
          _,
          reserve_same has_memory size v h (ground arith),
          record { block = k.block; inside = ground arith },
          refl,
        )
      ]
    ]
