-- ===== src/CircleBuff/Bounds.antt =====
-- The invariant of the ring allocator, and that its operations keep it.
use native.Mathlib.Nat.{mod-lt, mod-eq_of_lt, mod-add-mod}
use remote_debug_for_intel_f.Prelude.{ℕ, ◌+◌, ◌-◌, ◌%◌, ◌^◌, ◌≤◌, ◌<◌, ◌≡◌, refl, ap, some, arith}
use remote_debug_for_intel_f.CircleBuff.{CircleBuff, cbuff_init, cbuff_free, cbuff_alloc}

-- How many bytes are handed out.
abbrev pub used : CircleBuff → ℕ
used c = c.span - c.space_available

-- Offsets lie in the ring, and `write_offset` stands `used` bytes past `read_offset`. The ring lies
-- in the 32-bit address space, at an address other than 0.
pub record IsValid (c : CircleBuff) : Type 0 where
  pub nonempty : 0 < c.span
  pub based : 0 < c.raw_buff
  pub addressed : c.raw_buff + c.span ≤ 2 ^ 32
  pub space : c.space_available ≤ c.span
  pub read_in : c.read_offset < c.span
  pub write_in : c.write_offset < c.span
  pub behind : (c.read_offset + used c) % c.span ≡ c.write_offset

-- A nonempty memory inside the address space gives a valid ring with nothing handed out.
pub cbuff_init-IsValid :
    (base size : ℕ)
    → 0 < size
    → 0 < base
    → base + size ≤ 2 ^ 32
    → IsValid (cbuff_init base size) × (used (cbuff_init base size) ≡ 0)
unfolding cbuff_init
cbuff_init-IsValid base size h b a = ground (arith, mod-eq_of_lt {n = 0} {m = size})

module _ {c : CircleBuff} (amt : ℕ) (v : IsValid c) where
  -- The rings that allocation and release leave.
  alloc_state : CircleBuff
  alloc_state = record c {
    space_available = c.space_available - amt;
    write_offset = (c.write_offset + amt) % c.span;
  }

  free_state : CircleBuff
  free_state = record c {
    space_available = c.space_available + amt;
    read_offset = (c.read_offset + amt) % c.span;
  }

  alloc_behind :
      amt ≤ c.space_available
      → (c.read_offset + (c.span - (c.space_available - amt))) % c.span
        ≡ (c.write_offset + amt) % c.span
  alloc_behind h = ground (
    arith,
    v.behind,
    mod-add-mod (c.read_offset + used c) c.span amt,
    ap (λ (t : ℕ). t % c.span) {x = c.read_offset + (c.span - (c.space_available - amt))}
        {y = c.read_offset + used c + amt} (omega arith),
  )

  free_behind :
      amt ≤ used c
      → ((c.read_offset + amt) % c.span + (c.span - (c.space_available + amt))) % c.span
        ≡ c.write_offset
  free_behind h = ground (
    arith,
    v.behind,
    mod-add-mod (c.read_offset + amt) c.span (c.span - (c.space_available + amt)),
    ap (λ (t : ℕ). t % c.span) {x = c.read_offset + amt + (c.span - (c.space_available + amt))}
        {y = c.read_offset + used c} (omega arith),
  )

  -- In a valid ring, taking at most what is free succeeds at the address of the write offset and
  -- leaves a valid ring: the bytes handed out grow by `amt`, the free ones shrink by `amt`, and
  -- memory, span and read offset stay.
  pub cbuff_alloc_lem :
      amt ≤ c.space_available
      → (c' : CircleBuff) × (cbuff_alloc amt c ≡ some (c.raw_buff + c.write_offset, c'))
        × IsValid c'
        × (used c' ≡ used c + amt)
        × (c'.span ≡ c.span)
        × (c'.raw_buff ≡ c.raw_buff)
        × (c'.read_offset ≡ c.read_offset)
        × (c'.space_available + amt ≡ c.space_available)
  unfolding cbuff_alloc alloc_state
  cbuff_alloc_lem h = (
    alloc_state,
    ground (arith, v.nonempty),
    ground (arith, v, alloc_behind h, mod-lt (c.write_offset + amt) v.nonempty),
    omega arith,
    refl,
    refl,
    refl,
    omega arith,
  )

  -- In a valid ring, giving back at most what is handed out succeeds and leaves a valid ring: the
  -- bytes handed out shrink by `amt`, the free ones grow by `amt`, the read offset moves on by
  -- `amt` round the ring, and memory, span and write offset stay.
  pub cbuff_free_lem :
      amt ≤ used c
      → (c' : CircleBuff) × (cbuff_free amt c ≡ some (tt, c'))
        × IsValid c'
        × (used c' + amt ≡ used c)
        × (c'.span ≡ c.span)
        × (c'.raw_buff ≡ c.raw_buff)
        × (c'.write_offset ≡ c.write_offset)
        × (c'.space_available ≡ c.space_available + amt)
        × (c'.read_offset ≡ (c.read_offset + amt) % c.span)
  unfolding cbuff_free free_state
  cbuff_free_lem h = (
    free_state,
    ground (arith, v.nonempty),
    ground (arith, v, free_behind h, mod-lt (c.read_offset + amt) v.nonempty),
    omega arith,
    refl,
    refl,
    refl,
    refl,
    refl,
  )
