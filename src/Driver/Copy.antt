-- ===== src/Driver/Copy.antt =====
-- memcpy64_fpga2host and memcpy64_host2fpga of streaming/src/intel_st_debug_if_st_dbg_ip_driver.c:
-- whole 64-bit words between a byte array of the host and the memory behind the registers.
use remote_debug_for_intel_f.Prelude.{
  ℕ, zero, suc, ◌+◌, ◌/◌, ◌^◌, ◌&&◌, List, Option, none, some, Run, u32, u64, ltb, leb,
  if◌then◌else◌, blit, slice, of_bytes, to_bytes,
}
use remote_debug_for_intel_f.Mmio.{Mmio}
use remote_debug_for_intel_f.Driver.{Device}

-- The number of 64-bit transfers.
abbrev pub transfers : ℕ → ℕ
transfers len = u64 (len + 7) / 8

-- `fpga_buff += 8` in int32_t: a step over the largest one is an overflow.
abbrev pub next_address : ℕ → Option ℕ
next_address a = if ltb a (2 ^ 31) && leb (2 ^ 31) (a + 8) then none else some (u32 (a + 8))

module _ {X : Type 0} (m : Mmio X) where
  -- `n` rounds, with the host pointer at offset `at` of `host`.
  unfoldable pub fpga2host_loop :
      (n fpga_buff : ℕ) (host : List ℕ) (at : ℕ) → Run (Device X) (List ℕ)
  fpga2host_loop zero fpga_buff host at d = some (host, d)
  fpga2host_loop (suc n) fpga_buff host at d =
      let (v, hw) = m.read_64 d.drv.mmio_handle fpga_buff d.hw in
      elim (blit host at (to_bytes 8 v)) [
        | none ↦ none
        | some host' ↦ elim (next_address fpga_buff) [
          | none ↦ none
          | some next ↦ fpga2host_loop n next host' (at + 8) (record d { hw = hw })
        ]
      ]

  unfoldable pub host2fpga_loop :
      (n : ℕ) (host : List ℕ) (at fpga_buff : ℕ) → Run (Device X) (Unit {0})
  host2fpga_loop zero host at fpga_buff d = some (tt, d)
  host2fpga_loop (suc n) host at fpga_buff d = elim (slice host at 8) [
    | none ↦ none
    | some word ↦
        let hw = m.write_64 d.drv.mmio_handle fpga_buff (of_bytes word) d.hw in
        elim (next_address fpga_buff) [
          | none ↦ none
          | some next ↦ host2fpga_loop n host (at + 8) next (record d { hw = hw })
        ]
  ]

  unfoldable pub memcpy64_fpga2host :
      (fpga_buff : ℕ) (host_buff : List ℕ) (len : ℕ) → Run (Device X) (List ℕ)
  unfolding fpga2host_loop
  memcpy64_fpga2host fpga_buff host_buff len =
      fpga2host_loop (transfers len) (u32 fpga_buff) host_buff 0

  unfoldable pub memcpy64_host2fpga :
      (host_buff : List ℕ) (fpga_buff len : ℕ) → Run (Device X) (Unit {0})
  unfolding host2fpga_loop
  memcpy64_host2fpga host_buff fpga_buff len =
      host2fpga_loop (transfers len) host_buff 0 (u32 fpga_buff)
