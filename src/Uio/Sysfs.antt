-- ===== src/Uio/Sysfs.antt =====
-- protodrv_api/uio/src/intel_fpga_platform_api_uio.c: the size of the device as the kernel tells it.
use remote_debug_for_intel_f.Prelude.{
  ℕ, ◌-◌, ◌^◌, List, [], ◌∷◌, ◌++◌, Option, none, some, Run, ltb, ◌==◌, if◌then◌else◌, u32,
}
use remote_debug_for_intel_f.CString.{codes, advance, deref}
use remote_debug_for_intel_f.CString.Decimal.{decimal}
use remote_debug_for_intel_f.CString.Strtol.{strrchr, strtoul}
use remote_debug_for_intel_f.Uio.Globals.{Platform, UioOs}

-- The "%d" of an `unsigned int`, which prints it as an `int`.
unfoldable pub print_index : ℕ → List ℕ
print_index n = if ltb n (2 ^ 31) then decimal n else b'-' ∷ decimal (2 ^ 32 - n)

-- The text that the function leaves at `path`, with errno. The buffer of 1024 bytes is never full.
unfoldable pub uio_get_sysfs_map_path : (drv_path : Option (List ℕ)) → Run ℕ (List ℕ)
uio_get_sysfs_map_path none errno = none
uio_get_sysfs_map_path (some drv_path) errno = elim (strrchr drv_path b'/') [
  | none ↦ none
  | some none ↦ some ([], errno)
  | some (some p) ↦ elim (advance p 4) [
    | none ↦ none
    | some digits ↦ elim (strtoul digits errno) [
      | none ↦ none
      | some ((n, end), errno') ↦ elim (deref end) [
        | none ↦ none
        | some c ↦
            if c == 0
            then some
                (codes "/sys/class/uio/uio" ++ print_index (u32 n) ++ codes "/maps/map0/", errno')
            else some ([], errno')
      ]
    ]
  ]
]

module _ {W : Type 0} (os : UioOs W) where
  unfoldable pub uio_get_sysfs_map_file_to_uint64 : (path : List ℕ) → W → ℕ × W
  uio_get_sysfs_map_file_to_uint64 path w =
      let (fp, w1) = os.fopen path w in
      elim fp [
        | none ↦ (0, w1)
        | some stream ↦
            let (read, w2) = os.fscanf_lx stream w1 in
            (elim read [ none ↦ 0 | some n ↦ n ], os.fclose stream w2)
      ]

  unfoldable pub uio_update_based_on_sysfs : Run (Platform × W) (Unit {0})
  uio_update_based_on_sysfs (p, w) =
      if p.addr_span == 0
      then elim (uio_get_sysfs_map_path p.drv_path p.errno) [
        | none ↦ none
        | some (map_path, errno) ↦
            let (span, w') =
              uio_get_sysfs_map_file_to_uint64 (map_path ++ codes "size" ++ (0 ∷ [])) w in
            some (tt, (record p { addr_span = span; errno = errno }, w'))
      ]
      else some (tt, (p, w))
