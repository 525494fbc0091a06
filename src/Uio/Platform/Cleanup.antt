-- ===== src/Uio/Platform/Cleanup.antt =====
-- What the end of the platform leaves, protodrv_api/uio/src/intel_fpga_platform_api_uio.c.
use remote_debug_for_intel_f.Prelude.{
  true, false, List, [], ◌∷◌, none, some, ◌≡◌, ◌≢◌, ◌∙◌, arith, ◌==◌, Option-cases, inl, inr,
}
use remote_debug_for_intel_f.Messages.{returned}
use remote_debug_for_intel_f.Interfaces.{
  common_fpga_interface_info_vec_resize, common_fpga_interface_info_vec_reserve,
}
use remote_debug_for_intel_f.Uio.Globals.{Platform, UioOs}
use remote_debug_for_intel_f.Uio.Args.{
  GetoptResult, letter, show_dbg_msg_flag, single_component_flag, parse_arg, uio_parse_args,
}
use remote_debug_for_intel_f.Uio.Sysfs.{uio_update_based_on_sysfs}
use remote_debug_for_intel_f.Uio.Platform.{
  fpga_platform_init, fpga_platform_cleanup, uio_validate_args,
}

-- The state that the end of the platform leaves.
module _ {W : Type 0} (os : UioOs W) (p p' : Platform) (w w' : W) where
  pub cleanup-vec_size :
      fpga_platform_cleanup os (p, w) ≡ (returned tt, (p', w')) → p'.interfaces.vec_size ≡ 0
  unfolding fpga_platform_cleanup common_fpga_interface_info_vec_resize
      common_fpga_interface_info_vec_reserve
  cleanup-vec_size h = ground arith

  cleanup-drv_path : fpga_platform_cleanup os (p, w) ≡ (returned tt, (p', w')) → p'.drv_path ≡ none
  unfolding fpga_platform_cleanup
  cleanup-drv_path h = ground arith

-- No option gives a path.
unfoldable pub NoPath : List GetoptResult → Type 0
NoPath [] = Unit
NoPath (letter c optarg ∷ args) = ((c == b'p') ≡ false) × NoPath args
NoPath (show_dbg_msg_flag ∷ args) = NoPath args
NoPath (single_component_flag ∷ args) = NoPath args

uio_parse_args-NoPath :
    (args : List GetoptResult) (p p' : Platform)
    → NoPath args
    → uio_parse_args args p ≡ some p'
    → p'.drv_path ≡ p.drv_path
unfolding uio_parse_args parse_arg NoPath
uio_parse_args-NoPath [] p p' n h = ground arith
uio_parse_args-NoPath (show_dbg_msg_flag ∷ args) p p' n h =
    uio_parse_args-NoPath args (record p { show_dbg_msg = b'd' }) p' n h
uio_parse_args-NoPath (single_component_flag ∷ args) p p' n h =
    uio_parse_args-NoPath args (record p { single_component_mode = b'c' }) p' n h
uio_parse_args-NoPath (letter c optarg ∷ args) p p' n h =
    elim (Option-cases (parse_arg (letter c optarg) p)) [
      | inl e ↦ ground arith
      | inr (p1, e) ↦ uio_parse_args-NoPath args p1 p' (n.1) (ground arith) ∙ ground (arith, n.0)
    ]

pathless_init :
    {W : Type 0} (os : UioOs W) (args : List GetoptResult) (p : Platform) (w : W)
    (s' : Platform × W)
    → p.drv_path ≡ none
    → NoPath args
    → fpga_platform_init os args (p, w) ≢ some (true, s')
unfolding fpga_platform_init uio_update_based_on_sysfs uio_validate_args
pathless_init os args p w s' e n h = elim (Option-cases (uio_parse_args args p)) [
  | inl e1 ↦ ground arith
  | inr (p1, e1) ↦ ground (arith, uio_parse_args-NoPath args p p1 n e1)
]

-- After `fpga_platform_cleanup` has returned, `fpga_platform_init` does not answer true for any
-- options without a driver path, since the cleanup forgets the default path.
pub fpga_platform_init-fpga_platform_cleanup :
    {W : Type 0} (os : UioOs W) (args : List GetoptResult) (p p' : Platform) (w w' : W)
    (s' : Platform × W)
    → fpga_platform_cleanup os (p, w) ≡ (returned tt, (p', w'))
    → NoPath args
    → fpga_platform_init os args (p', w') ≢ some (true, s')
fpga_platform_init-fpga_platform_cleanup os args p p' w w' s' h n =
    pathless_init os args p' w' s' (cleanup-drv_path os p p' w w' h) n
