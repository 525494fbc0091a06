-- ===== src/Uio/Args.antt =====
-- protodrv_api/uio/src/intel_fpga_platform_api_uio.c: the options. What getopt_long returns is a
-- parameter: the list of its results before -1.
pub mod Numbers
use remote_debug_for_intel_f.Prelude.{
  ℕ, ◌+◌, Bool, true, false, List, [], ◌∷◌, Option, none, some, Run, ◌>>=◌, ◌==◌, ◌>>◌, pure,
  if◌then◌else◌,
}
use remote_debug_for_intel_f.CString.{advance}
use remote_debug_for_intel_f.Uio.Globals.{Platform}
use remote_debug_for_intel_f.CString.Strtol.{isdigit, isxdigit, is_hex_prefix, strtol, erange}

-- The loop over the characters up to the NUL.
unfoldable pub is_all_digit : (is_acceptable_digit : ℕ → Bool) → List ℕ → Option Bool
is_all_digit test [] = none
is_all_digit test (c ∷ s) = elim (c == 0) [
  | true ↦ some true
  | false ↦ elim (test c) [ true ↦ is_all_digit test s | false ↦ some false ]
]

-- The result and errno. `size_t` and `long` have one size; `optarg` is the same before and after.
unfoldable pub uio_parse_integer_arg : (optarg : List ℕ) → Run ℕ ℕ
uio_parse_integer_arg optarg errno = elim (is_hex_prefix optarg) [
  | none ↦ none
  | some hex ↦ elim (advance optarg (if hex then 2 else 0)) [
    | none ↦ none
    | some digits ↦ elim (is_all_digit (if hex then isxdigit else isdigit) digits) [
      | none ↦ none
      | some false ↦ some (0, errno)
      | some true ↦ elim (strtol optarg errno) [
        | none ↦ none
        | some (ret, errno') ↦ some ((if errno' == erange then 0 else ret), errno')
      ]
    ]
  ]
]

-- What getopt_long does at an option: it returns its letter, with `optarg`, or it stores a long
-- option's letter at the option's flag, g_common_show_dbg_msg or s_uio_single_component_mode.
pub data GetoptResult : Type 0 where
  letter : (c : ℕ) (optarg : List ℕ) → GetoptResult
  show_dbg_msg_flag : GetoptResult
  single_component_flag : GetoptResult

unfoldable pub parse_arg : GetoptResult → Platform → Option Platform
parse_arg show_dbg_msg_flag p = some (record p { show_dbg_msg = b'd' })
parse_arg single_component_flag p = some (record p { single_component_mode = b'c' })
parse_arg (letter c optarg) p =
    if c == b'p'
    then some (record p { drv_path = some optarg })
    else if c == b's'
    then elim (uio_parse_integer_arg optarg p.errno) [
      | none ↦ none
      | some (n, e) ↦ some (record p { addr_span = n; errno = e })
    ]
    else if c == b'a'
    then elim (uio_parse_integer_arg optarg p.errno) [
      | none ↦ none
      | some (n, e) ↦ some (record p { start_addr = n; errno = e })
    ]
    else some p

unfoldable pub uio_parse_args : List GetoptResult → Platform → Option Platform
uio_parse_args [] p = some p
uio_parse_args (arg ∷ args) p = elim (parse_arg arg p) [
  | none ↦ none
  | some p' ↦ uio_parse_args args p'
]
