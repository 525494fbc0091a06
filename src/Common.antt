-- ===== src/Common.antt =====
-- streaming/src/intel_st_debug_if_common.c: handle messages, `zero_mem` and the random identifier.
pub mod ZeroMem
pub mod Handle
mod Tests
use remote_debug_for_intel_f.Prelude.{
  ℕ, zero, suc, ◌+◌, ◌*◌, ◌/◌, ◌%◌, true, false, List, [], ◌∷◌, ◌++◌, Option, none, some, Run, ltb,
  ◌==◌, if◌then◌else◌, replicate, blit,
}
use remote_debug_for_intel_f.Os.{Os}
use remote_debug_for_intel_f.CString.{codes, strstr, advance}
use remote_debug_for_intel_f.CString.Strtol.{atoi}
use remote_debug_for_intel_f.Prelude.Int.{ℤ, minus_one}
use remote_debug_for_intel_f.CString.Decimal.{decimal, snprintf}

-- `rounds` times `width` zero bytes, from offset `at` on.
unfoldable pub zero_loop : (rounds at width : ℕ) → List ℕ → Option (List ℕ)
zero_loop zero at width a = some a
zero_loop (suc rounds) at width a = elim (blit a at (replicate width 0)) [
  | none ↦ none
  | some a' ↦ zero_loop rounds (at + width) width a'
]

abbrev pub big_size : ℕ
big_size = 8

-- First whole `size_t` words, if there are more than one, then the bytes that are left over.
unfoldable pub zero_mem : List ℕ → (length : ℕ) → Option (List ℕ)
zero_mem a length =
    if ltb big_size length
    then elim (zero_loop (length / big_size) 0 big_size a) [
      | none ↦ none
      | some a' ↦ zero_loop (length % big_size) (length / big_size * big_size) 1 a'
    ]
    else zero_loop (length % big_size) 0 1 a

-- snprintf (buff, buff_size, "%s HANDLE=%d", sock_name, handle)
unfoldable pub generate_expected_handle_message :
    (buff : List ℕ) (buff_size : ℕ) (sock_name : List ℕ) (handle : ℕ) → Option (List ℕ)
generate_expected_handle_message buff buff_size sock_name handle =
    snprintf buff buff_size (sock_name ++ (codes " HANDLE=" ++ decimal handle))

-- The number behind the first HANDLE=, -1 where there is none.
unfoldable pub parse_handle_id : (buff : List ℕ) → Option ℤ
parse_handle_id buff = elim (strstr buff (codes "HANDLE=")) [
  | none ↦ none
  | some none ↦ some minus_one
  | some (some text) ↦ elim (advance text 7) [ none ↦ none | some digits ↦ atoi digits ]
]

-- The loop draws until the number is not 0, with srand as part of the system's `rand`; `fuel` bounds the draws.
unfoldable pub get_random_id : {N : Type 0} → Os N → (fuel : ℕ) → Run N ℕ
get_random_id os zero s = none
get_random_id os (suc fuel) s =
    let (result, s') = os.rand s in
    elim (result == 0) [ true ↦ get_random_id os fuel s' | false ↦ some (result, s') ]
