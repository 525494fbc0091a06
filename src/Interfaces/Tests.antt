-- ===== src/Interfaces/Tests.antt =====
-- The table at two interfaces.
use remote_debug_for_intel_f.Prelude.{◌≡◌, inl, refl, true, [], ◌∷◌, some, arith}
use remote_debug_for_intel_f.Prelude.Int.{ℤ, minus_one}
use remote_debug_for_intel_f.Interfaces.{
  InterfaceInfo, InterfaceVec, zero_info, to_int, fpga_open, fpga_close,
  common_fpga_interface_info_vec_resize, common_fpga_interface_info_vec_reserve,
}
use remote_debug_for_intel_f.Interfaces.Table.{
  IsValid, fpga_open-exclusive, common_fpga_interface_info_vec_resize-IsValid,
}

abbrev named : InterfaceInfo
named = record zero_info { type_id = 9 }

abbrev two : InterfaceVec
two = record { vec = zero_info ∷ named ∷ []; vec_size = 2; vec_reserved = 2 }

two-IsValid : IsValid two
two-IsValid = record { block = refl; inside = omega arith }

-- Down to one entry and up to two again: the second is the old one and not a fresh one.
keeps_old_entry :
    common_fpga_interface_info_vec_resize true 1 two
    ≡ some (tt, record { vec = zero_info ∷ named ∷ []; vec_size = 1; vec_reserved = 2 })
unfolding common_fpga_interface_info_vec_resize common_fpga_interface_info_vec_reserve
keeps_old_entry = refl

fpga_open-exclusive_example :
    (r : ℤ) × (v1 v2 v3 : InterfaceVec) × (fpga_open 1 two ≡ some (r, v1))
    × (fpga_open 1 v1 ≡ some (minus_one, v1))
    × (fpga_close 1 v1 ≡ some (tt, v2))
    × (fpga_open 1 v2 ≡ some (to_int 1, v3))
fpga_open-exclusive_example = fpga_open-exclusive two 1 two-IsValid (omega arith)

common_fpga_interface_info_vec_resize-IsValid_example :
    (v' : InterfaceVec) × (common_fpga_interface_info_vec_resize true 5 two ≡ some (tt, v'))
    × IsValid v'
    × (v'.vec_size ≡ 5)
common_fpga_interface_info_vec_resize-IsValid_example =
    common_fpga_interface_info_vec_resize-IsValid true 5 two two-IsValid (inl refl)
