-- ===== src/CircleBuff/Tests.antt =====
-- The ring theorems at a ring whose free space runs round its end.
use remote_debug_for_intel_f.Prelude.{◌⊎◌, ℕ, ◌+◌, ◌-◌, ◌%◌, ◌≤◌, ◌<◌, ◌≡◌, ◌≢◌, refl, some, arith}
use remote_debug_for_intel_f.CircleBuff.{CircleBuff, cbuff_alloc, cbuff_free}
use remote_debug_for_intel_f.CircleBuff.Bounds.{IsValid, used, cbuff_alloc_lem, cbuff_free_lem}
use remote_debug_for_intel_f.CircleBuff.Regions.{offset_of, cbuff_alloc_disjoint}

abbrev ring : CircleBuff
ring = record {
  raw_buff = 2048;
  span = 64;
  write_offset = 48;
  read_offset = 32;
  space_available = 48;
}

ring-IsValid : IsValid ring
ring-IsValid = record {
  nonempty = omega arith;
  based = omega arith;
  addressed = omega arith;
  space = omega arith;
  read_in = omega arith;
  write_in = omega arith;
  behind = refl;
}

cbuff_alloc_lem_example :
    (c' : CircleBuff) × (cbuff_alloc 24 ring ≡ some (2048 + 48, c'))
    × IsValid c'
    × (used c' ≡ 16 + 24)
    × (c'.span ≡ 64)
    × (c'.raw_buff ≡ 2048)
    × (c'.read_offset ≡ 32)
    × (c'.space_available + 24 ≡ 48)
cbuff_alloc_lem_example = cbuff_alloc_lem 24 ring-IsValid (omega arith)

cbuff_free_lem_example :
    (c' : CircleBuff) × (cbuff_free 8 ring ≡ some (tt, c'))
    × IsValid c'
    × (used c' + 8 ≡ 16)
    × (c'.span ≡ 64)
    × (c'.raw_buff ≡ 2048)
    × (c'.write_offset ≡ 48)
    × (c'.space_available ≡ 48 + 8)
    × (c'.read_offset ≡ (32 + 8) % 64)
cbuff_free_lem_example = cbuff_free_lem 8 ring-IsValid (omega arith)

cbuff_alloc_disjoint_example :
    (address : ℕ) × (c' : CircleBuff) × (cbuff_alloc 24 ring ≡ some (address, c'))
    × (2048 ≤ address)
    × (offset_of ring (address - 2048) 20 < 64)
    × ((16 ≤ 10) ⊎ (offset_of ring (address - 2048) 20 ≢ offset_of ring 32 10))
cbuff_alloc_disjoint_example =
    cbuff_alloc_disjoint {c = ring} 24 20 10 ring-IsValid (omega arith) (omega arith)
