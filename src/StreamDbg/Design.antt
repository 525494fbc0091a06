-- ===== src/StreamDbg/Design.antt =====
-- Where the two memories lie.
use remote_debug_for_intel_f.Prelude.{ℕ, ◌+◌, ◌*◌, ◌^◌, ◌≤◌, ◌<◌, ◌≡◌, arith}
use remote_debug_for_intel_f.StreamDbg.{get_design_info}

-- For a memory size other than 0 of which three fit into 32 bits, the H2T memory and the T2H memory
-- have that size, the H2T memory starts above the first 2048 addresses and ends at or before the
-- start of the T2H memory, and the T2H memory ends inside the 32-bit address space.
pub get_design_info-disjoint :
    (size : ℕ)
    → 0 < size
    → 3 * size ≤ 2 ^ 32
    → ((get_design_info size).h2t_mem_sz ≡ size)
      × ((get_design_info size).t2h_mem_sz ≡ size)
      × (2048 ≤ (get_design_info size).h2t_mem_base_addr)
      × ((get_design_info size).h2t_mem_base_addr + size ≤ (get_design_info size).t2h_mem_base_addr)
      × ((get_design_info size).t2h_mem_base_addr + size ≤ 2 ^ 32)
unfolding get_design_info
get_design_info-disjoint size some_bytes small = ground arith
