-- ===== src/Uio/Platform/Ready.antt =====
-- What a client finds when the platform has started: the interface table after
-- protodrv_api/uio/src/intel_fpga_platform_api_uio.c.
use remote_debug_for_intel_f.Prelude.{
  ℕ, ◌+◌, Bool, true, false, List, [], ◌∷◌, some, ◌≡◌, refl, sym, ap, ◌∙◌, arith, ◌==◌,
  Option-cases, inl, inr, Bool-cases, u64, get_elem?, set,
}
use remote_debug_for_intel_f.Prelude.Int.{pos}
use remote_debug_for_intel_f.Interfaces.{
  InterfaceVec, InterfaceInfo, fpga_open, common_fpga_interface_info_vec_resize,
  common_fpga_interface_info_vec_reserve,
}
use remote_debug_for_intel_f.Uio.Access.{fpga_uio_get_base_address}
use remote_debug_for_intel_f.Uio.Globals.{Platform, UioOs}
use remote_debug_for_intel_f.Uio.Args.{GetoptResult, uio_parse_args}
use remote_debug_for_intel_f.Uio.Sysfs.{uio_update_based_on_sysfs}
use remote_debug_for_intel_f.Uio.Platform.{
  uio_open_driver, uio_map_mmio, uio_scan_interfaces, uio_create_interrupt_thread, start_thread,
  err_map, err_scan, map_platform, open_platform, fpga_platform_init, uio_validate_args,
}

-- One entry, closed, at the start of the mapping.
FirstAt : (v : InterfaceVec) (base : ℕ) → Type 0
FirstAt v base =
    (v.vec_size ≡ 1)
    × ((info : InterfaceInfo) × (get_elem? v.vec 0 ≡ some info)
        × (info.base_address ≡ base)
        × (info.is_mmio_opened ≡ false))

get_elem?-set :
    {A : Type 0} (xs : List A) (a b : A)
    → get_elem? xs 0 ≡ some a
    → get_elem? (set xs 0 b) 0 ≡ some b
get_elem?-set [] a b h = ground arith
get_elem?-set (x ∷ xs) a b h = refl

resize-size :
    (granted : Bool) (v v' : InterfaceVec) (u : Unit {0})
    → common_fpga_interface_info_vec_resize granted 1 v ≡ some (u, v')
    → v'.vec_size ≡ 1
unfolding common_fpga_interface_info_vec_resize common_fpga_interface_info_vec_reserve
resize-size granted v v' u h = ground arith

module _ {W : Type 0} (os : UioOs W) where
  uio_scan_interfaces-FirstAt :
      (p p' : Platform) (w w' : W) (b : Bool)
      → uio_scan_interfaces os (p, w) ≡ some (b, (p', w'))
      → (p.single_component_mode == 0) ≡ false
      → FirstAt p'.interfaces (u64 (p'.mmap_ptr + p'.start_addr))
  unfolding uio_scan_interfaces FirstAt
  uio_scan_interfaces-FirstAt p p' w w' b h single =
      let granted = (os.has_memory 1 w).0 in
      elim (Option-cases (common_fpga_interface_info_vec_resize granted 1 p.interfaces)) [
        | inl e ↦ absurd (ground arith)
        | inr ((u, v), e) ↦ elim (Option-cases (get_elem? v.vec 0)) [
          | inl e1 ↦ absurd (ground arith)
          | inr (info, e1) ↦
              let info' = record info {
                base_address = u64 (p.mmap_ptr + p.start_addr);
                is_mmio_opened = false;
                is_interrupt_opened = false;
              } in
              let found = get_elem?-set v.vec info info' e1 in
              let size = resize-size granted p.interfaces v u e in
              (ground arith, (info', ground arith, ground arith, refl))
        ]
      ]

  start_thread-interfaces :
      (p p' : Platform) (w w' : W) (b : Bool)
      → start_thread os (p, w) ≡ some (b, (p', w'))
      → (p'.interfaces ≡ p.interfaces)
        × (p'.mmap_ptr ≡ p.mmap_ptr)
        × (p'.start_addr ≡ p.start_addr)
        × (p'.single_component_mode ≡ p.single_component_mode)
  unfolding start_thread uio_create_interrupt_thread
  start_thread-interfaces p p' w w' b h = ground arith

  uio_scan_interfaces-mode :
      (p p' : Platform) (w w' : W) (b : Bool)
      → uio_scan_interfaces os (p, w) ≡ some (b, (p', w'))
      → p'.single_component_mode ≡ p.single_component_mode
  unfolding uio_scan_interfaces
  uio_scan_interfaces-mode p p' w w' b h = ground arith

  open_platform-FirstAt :
      (p p' : Platform) (w w' : W)
      → open_platform os (p, w) ≡ some (true, (p', w'))
      → (p'.single_component_mode == 0) ≡ false
      → FirstAt p'.interfaces (u64 (p'.mmap_ptr + p'.start_addr))
  unfolding open_platform map_platform err_map err_scan
  open_platform-FirstAt p p' w w' h single = elim (Option-cases (uio_open_driver os (p, w))) [
    | inl e ↦ absurd (ground arith)
    | inr ((false, _), e) ↦ absurd (ground arith)
    | inr ((true, s1), e) ↦ elim (Option-cases (uio_map_mmio os s1)) [
      | inl e1 ↦ absurd (ground arith)
      | inr ((false, _), e1) ↦ absurd (ground arith)
      | inr ((true, (p2, w2)), e1) ↦ elim (Option-cases (uio_scan_interfaces os (p2, w2))) [
        | inl e2 ↦ absurd (ground arith)
        | inr ((false, _), e2) ↦ absurd (ground arith)
        | inr ((true, (p3, w3)), e2) ↦
            let started : start_thread os (p3, w3) ≡ some (true, (p', w')) = ground arith in
            let (same, ptr, addr, mode) = start_thread-interfaces p3 p' w3 w' true started in
            let found = uio_scan_interfaces-FirstAt p2 p3 w2 w3 true e2 (
              ap (λ m. m == 0) (sym (mode ∙ uio_scan_interfaces-mode p2 p3 w2 w3 true e2))
              ∙ single) in
            rw (same, ptr, addr) found
      ]
    ]
  ]

  fpga_platform_init-FirstAt :
      (args : List GetoptResult) (p p' : Platform) (w w' : W)
      → fpga_platform_init os args (p, w) ≡ some (true, (p', w'))
      → (p'.single_component_mode == 0) ≡ false
      → FirstAt p'.interfaces (u64 (p'.mmap_ptr + p'.start_addr))
  unfolding fpga_platform_init
  fpga_platform_init-FirstAt args p p' w w' h single = elim (Option-cases (uio_parse_args args p)) [
    | inl e ↦ absurd (ground arith)
    | inr (p1, e) ↦ elim (Option-cases (uio_update_based_on_sysfs os (p1, w))) [
      | inl e1 ↦ absurd (ground arith)
      | inr ((u, (p2, w2)), e2) ↦ elim (Bool-cases (uio_validate_args p2)) [
        | inl valid ↦
            open_platform-FirstAt (record p2 { in_thread_timeout = 100 }) p' w2 w' (ground arith)
              single
        | inr invalid ↦ absurd (ground arith)
      ]
    ]
  ]

fpga_open-FirstAt :
    (v : InterfaceVec) (base : ℕ)
    → FirstAt v base
    → (v' : InterfaceVec) × (fpga_open 0 v ≡ some (pos 0, v'))
      × (fpga_uio_get_base_address v' (pos 0) ≡ some base)
unfolding fpga_open FirstAt fpga_uio_get_base_address
fpga_open-FirstAt v base (size, (info, here, at, closed)) =
    let info' = record info { is_mmio_opened = true } in
    (
      record v { vec = set v.vec 0 info' },
      ground arith,
      rw (fpga_uio_get_base_address, get_elem?-set v.vec info info' here) (ap some at),
    )

-- When `fpga_platform_init` has answered true in single component mode, `fpga_open` of interface 0
-- gives the handle 0, and the registers of that handle are at the start address inside the mapping
-- of the device.
pub fpga_open-fpga_platform_init :
    {W : Type 0} (os : UioOs W) (args : List GetoptResult) (p p' : Platform) (w w' : W)
    → fpga_platform_init os args (p, w) ≡ some (true, (p', w'))
    → (p'.single_component_mode == 0) ≡ false
    → (v' : InterfaceVec) × (fpga_open 0 p'.interfaces ≡ some (pos 0, v'))
      × (fpga_uio_get_base_address v' (pos 0) ≡ some (u64 (p'.mmap_ptr + p'.start_addr)))
fpga_open-fpga_platform_init os args p p' w w' h single =
    fpga_open-FirstAt p'.interfaces (u64 (p'.mmap_ptr + p'.start_addr))
      (fpga_platform_init-FirstAt os args p p' w w' h single)
