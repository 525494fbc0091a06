-- ===== src/Server/Wrap.antt =====
-- buff_len_to_wrap_boundary of streaming/src/intel_st_debug_if_server.c.
pub mod Split
pub mod Around
use remote_debug_for_intel_f.Prelude.{ℕ, ◌+◌, u64, sub64, ltb, if◌then◌else◌}

unfoldable pub buff_len_to_wrap_boundary : (buff_sa buff_sz buff payload_sz : ℕ) → ℕ
buff_len_to_wrap_boundary buff_sa buff_sz buff payload_sz =
    let end_addr = u64 (buff_sa + buff_sz) in
    if ltb end_addr (u64 (buff + payload_sz)) then sub64 end_addr buff else 0
