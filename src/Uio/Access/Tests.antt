-- ===== src/Uio/Access/Tests.antt =====
-- The register accesses on sixteen bytes of memory.
use remote_debug_for_intel_f.Prelude.{
  ℕ, ◌≡◌, refl, true, false, List, [], ◌∷◌, ◌++◌, Option, some, arith, replicate,
}
use remote_debug_for_intel_f.Prelude.Int.{pos}
use remote_debug_for_intel_f.Interfaces.{InterfaceVec, zero_info}
use remote_debug_for_intel_f.Driver.{Device, initial_driver}
use remote_debug_for_intel_f.Driver.Copy.{memcpy64_host2fpga, memcpy64_fpga2host}
use remote_debug_for_intel_f.Uio.Access.{
  uio_mmio, ram, fpga_read_64, fpga_write_64, fpga_uio_get_base_address,
}
use remote_debug_for_intel_f.Uio.Access.Bytes.{IsBytes}
use remote_debug_for_intel_f.Uio.Access.Emulation.{
  Placed, emulated_is_native, fpga_read_64-fpga_write_64,
}
use remote_debug_for_intel_f.Uio.Access.Words.{AreWords, concat}
use remote_debug_for_intel_f.Uio.Access.Copy.{memcpy64_fpga2host-memcpy64_host2fpga}

abbrev table : InterfaceVec
table = record {
  vec = record zero_info { base_address = 4096 } ∷ [];
  vec_size = 1;
  vec_reserved = 1;
}

abbrev memory : List ℕ
memory = replicate 16 1

memory-IsBytes : IsBytes memory
unfolding IsBytes
memory-IsBytes = ground arith

eighth-Placed : Placed 4096 table (pos 0) 8 8 4
unfolding Placed fpga_uio_get_base_address
eighth-Placed = (4096, refl, refl, omega arith, omega arith)

emulated_is_native_example :
    (fpga_read_64 (ram 4096) table (pos 0) true 8 memory
      ≡ fpga_read_64 (ram 4096) table (pos 0) false 8 memory)
    × (fpga_write_64 (ram 4096) table (pos 0) true 8 77 memory
        ≡ fpga_write_64 (ram 4096) table (pos 0) false 8 77 memory)
emulated_is_native_example =
    emulated_is_native 4096 table (pos 0) 8 8 77 memory eighth-Placed memory-IsBytes

fpga_read_64-fpga_write_64_example :
    (bytes' : List ℕ) × (fpga_write_64 (ram 4096) table (pos 0) true 8 77 memory
      ≡ some (tt, bytes'))
    × (fpga_read_64 (ram 4096) table (pos 0) false 8 bytes' ≡ some (77, bytes'))
fpga_read_64-fpga_write_64_example =
    fpga_read_64-fpga_write_64 4096 table (pos 0) 8 8 true false 77 memory eighth-Placed
      memory-IsBytes (omega arith) (omega arith)

-- One word, written behind the first eight bytes and read into an empty buffer.
abbrev mapped : Device (Option (List ℕ))
mapped = record { drv = record initial_driver { mmio_handle = pos 0 }; hw = some memory }

abbrev one_word : List (List ℕ)
one_word = (8 ∷ 7 ∷ 6 ∷ 5 ∷ 4 ∷ 3 ∷ 2 ∷ 1 ∷ []) ∷ []

one_word-AreWords : AreWords one_word
unfolding AreWords IsBytes
one_word-AreWords = (refl, ground arith, tt)

memcpy64_fpga2host-memcpy64_host2fpga_example :
    (d' : Device (Option (List ℕ))) × (memcpy64_host2fpga
        (uio_mmio (ram 4096) table true)
        (concat one_word ++ [])
        8
        8
        mapped
      ≡ some (tt, d'))
    × (d'.hw ≡ some ((replicate 8 1 ++ concat one_word) ++ []))
    × (memcpy64_fpga2host (uio_mmio (ram 4096) table true) 8 (replicate 8 0) 8 d'
        ≡ some (concat one_word ++ [], d'))
unfolding fpga_uio_get_base_address
memcpy64_fpga2host-memcpy64_host2fpga_example =
    memcpy64_fpga2host-memcpy64_host2fpga 4096 0 table (pos 0) true one_word 8 8 [] (replicate 8 1)
      (replicate 8 1) (replicate 8 0) mapped refl refl refl refl memory-IsBytes one_word-AreWords
      refl (omega arith) (omega arith) (omega arith) (omega arith)
