-- ===== src/Common/Tests.antt =====
-- zero_mem and the texts at concrete buffers.
use remote_debug_for_intel_f.Prelude.{
  ℕ, List, ◌≡◌, ◌≢◌, refl, [], ◌∷◌, ◌++◌, some, arith, replicate, drop,
}
use remote_debug_for_intel_f.Prelude.Int.{pos}
use remote_debug_for_intel_f.CString.{literal, codes, starts_with}
use remote_debug_for_intel_f.CString.Decimal.{decimal, digits_onto, snprintf}
use remote_debug_for_intel_f.Common.{generate_expected_handle_message, parse_handle_id, zero_mem}
use remote_debug_for_intel_f.Common.Handle.{
  IsName, parse_handle_id-generate_expected_handle_message,
}
use remote_debug_for_intel_f.Common.ZeroMem.{zero_mem_lem}

handle_message :
    generate_expected_handle_message (replicate 16 1) 16 (codes "H2T") 305
    ≡ some (literal "H2T HANDLE=305" ++ (1 ∷ []))
unfolding generate_expected_handle_message decimal snprintf
handle_message = refl

zero_mem_lem_example :
    (◌≢◌ {A = ℕ} 10 8
      → zero_mem (replicate 12 5) 10 ≡ some (replicate 10 0 ++ drop 10 (replicate 12 5)))
    × (zero_mem (replicate 12 5) 8 ≡ some (replicate 12 5))
zero_mem_lem_example = zero_mem_lem (replicate 12 5) 10 (omega arith)

h2t-IsName : IsName (codes "H2T")
unfolding IsName starts_with
h2t-IsName = (refl, λ rest. refl, (refl, λ rest. refl, (refl, λ rest. refl, tt)))

parse_handle_id-generate_expected_handle_message_example :
    (buff' : List ℕ) × (generate_expected_handle_message (replicate 32 1) 32 (codes "H2T") 305
      ≡ some buff')
    × (parse_handle_id buff' ≡ some (pos 305))
unfolding decimal digits_onto
parse_handle_id-generate_expected_handle_message_example =
    parse_handle_id-generate_expected_handle_message (replicate 32 1) 32 (codes "H2T") 305
      h2t-IsName (omega arith) (omega arith) (omega arith)
