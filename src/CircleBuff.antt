-- ===== src/CircleBuff.antt =====
-- streaming/inc/intel_st_debug_if_st_dbg_ip_allocator.h: the ring allocator of the H2T and MGMT
-- memories. A division by a span of 0 faults.
pub mod Bounds
pub mod Regions
mod Tests
use remote_debug_for_intel_f.Prelude.{
  ℕ, ◌+◌, ◌%◌, Run, none, some, u32, u64, sub64, ◌==◌, if◌then◌else◌,
}

-- CIRCLE_BUFF
pub record CircleBuff : Type 0 where
  pub raw_buff : ℕ
  pub span : ℕ
  pub write_offset : ℕ
  pub read_offset : ℕ
  pub space_available : ℕ

unfoldable pub cbuff_init : (raw_buff raw_buff_sz : ℕ) → CircleBuff
cbuff_init raw_buff raw_buff_sz = record {
  raw_buff = raw_buff;
  span = raw_buff_sz;
  write_offset = 0;
  read_offset = 0;
  space_available = raw_buff_sz;
}

unfoldable pub cbuff_free : ℕ → Run CircleBuff (Unit {0})
cbuff_free amt c =
    if c.span == 0
    then none
    else some (
      tt,
      record c {
        space_available = u64 (c.space_available + amt);
        read_offset = u64 (c.read_offset + amt) % c.span;
      },
    )

unfoldable pub cbuff_alloc : ℕ → Run CircleBuff ℕ
cbuff_alloc amt c =
    if c.span == 0
    then none
    else some (
      u32 (c.raw_buff + c.write_offset),
      record c {
        space_available = sub64 c.space_available amt;
        write_offset = u64 (c.write_offset + amt) % c.span;
      },
    )
