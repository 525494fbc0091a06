-- ===== src/Uio/Platform/Resources.antt =====
-- What the platform holds of the operating system, protodrv_api/uio/src/intel_fpga_platform_api_uio.c.
use remote_debug_for_intel_f.Prelude.{
  ℕ, zero, suc, Bool, true, false, List, [], ◌∷◌, ◌++◌, Option, none, some, ◌≡◌, sym, ap, ◌∙◌,
  arith, if◌then◌else◌, Option-cases, inl, inr, Bool-cases,
}
use remote_debug_for_intel_f.Prelude.Int.{ℤ, pos, negsuc}
use remote_debug_for_intel_f.CString.{codes}
use remote_debug_for_intel_f.Uio.Globals.{Platform, UioOs}
use remote_debug_for_intel_f.Uio.Args.{GetoptResult, uio_parse_args}
use remote_debug_for_intel_f.Uio.Platform.{
  uio_open_driver, uio_map_mmio, uio_scan_interfaces, uio_create_interrupt_thread, err_map,
  start_thread, open_platform, map_platform, uio_validate_args, fpga_platform_init,
}
use remote_debug_for_intel_f.Uio.Sysfs.{
  uio_get_sysfs_map_path, uio_get_sysfs_map_file_to_uint64, uio_update_based_on_sysfs,
}

-- A descriptor, a mapping, or a stream.
pub data Resource : Type 0 where
  descriptor : ℤ → Resource
  mapping : (address span : ℕ) → Resource
  stream : ℕ → Resource

-- What open leaves: -1 is no descriptor.
abbrev pub with_descriptor : ℤ → List Resource → List Resource
with_descriptor (pos h) held = descriptor (pos h) ∷ held
with_descriptor (negsuc zero) held = held
with_descriptor (negsuc (suc n)) held = descriptor (negsuc (suc n)) ∷ held

abbrev pub with_mapping : (span : ℕ) → Option ℕ → List Resource → List Resource
with_mapping span none held = held
with_mapping span (some address) held = mapping address span ∷ held

abbrev pub with_stream : Option ℕ → List Resource → List Resource
with_stream none held = held
with_stream (some s) held = stream s ∷ held

-- `held` lists what a process holds, the last first, as the system calls are documented.
pub record HeldLaws {W : Type 0} (os : UioOs W) (held : W → List Resource) : Type 0 where
  pub open_rdwr_lem :
      (path : List ℕ) (w : W)
      → held ((os.open_rdwr path w).1) ≡ with_descriptor ((os.open_rdwr path w).0) (held w)
  pub close_lem :
      (h : ℤ) (w : W) (l : List Resource) → held w ≡ descriptor h ∷ l → held (os.close h w) ≡ l
  pub mmap_lem :
      (span : ℕ) (h : ℤ) (w : W)
      → held ((os.mmap span h w).1) ≡ with_mapping span ((os.mmap span h w).0) (held w)
  pub munmap_lem :
      (address span : ℕ) (w : W) (l : List Resource)
      → held w ≡ mapping address span ∷ l
      → held (os.munmap address span w) ≡ l
  pub fopen_lem :
      (path : List ℕ) (w : W)
      → held ((os.fopen path w).1) ≡ with_stream ((os.fopen path w).0) (held w)
  pub fscanf_lx_lem : (s : ℕ) (w : W) → held ((os.fscanf_lx s w).1) ≡ held w
  pub fclose_lem :
      (s : ℕ) (w : W) (l : List Resource) → held w ≡ stream s ∷ l → held (os.fclose s w) ≡ l
  pub sem_init_lem : (w : W) → held ((os.sem_init w).1) ≡ held w
  pub rwlock_init_lem : (w : W) → held ((os.rwlock_init w).1) ≡ held w
  pub wrlock_lem : (w : W) → held ((os.wrlock w).1) ≡ held w
  pub unlock_lem : (w : W) → held ((os.unlock w).1) ≡ held w
  pub pthread_create_lem : (w : W) → held ((os.pthread_create w).1) ≡ held w
  pub has_memory_lem : (size : ℕ) (w : W) → held ((os.has_memory size w).1) ≡ held w

module _ {W : Type 0} (os : UioOs W) (held : W → List Resource) (laws : HeldLaws os held) where
  uio_open_driver-held :
      (p p' : Platform) (w w' : W) (b : Bool)
      → uio_open_driver os (p, w) ≡ some (b, (p', w'))
      → held w' ≡ (if b then descriptor p'.drv_handle ∷ held w else held w)
  unfolding uio_open_driver
  uio_open_driver-held p p' w w' b h = elim (Option-cases p.drv_path) [
    | inl e ↦ ground arith
    | inr (path, e) ↦ ground (arith, laws.open_rdwr_lem path w)
  ]

  uio_map_mmio-held :
      (p p' : Platform) (w w' : W) (b : Bool)
      → uio_map_mmio os (p, w) ≡ some (b, (p', w'))
      → held w' ≡ (if b then mapping p'.mmap_ptr p.addr_span ∷ held w else held w)
  unfolding uio_map_mmio
  uio_map_mmio-held p p' w w' b h = ground (arith, laws.mmap_lem p.addr_span p.drv_handle w)

  -- The handle, the mapping and its size stay.
  Kept : (p p' : Platform) → Type 0
  Kept p p' =
      (p'.drv_handle ≡ p.drv_handle) × (p'.mmap_ptr ≡ p.mmap_ptr) × (p'.addr_span ≡ p.addr_span)

  uio_map_mmio-keeps :
      (p p' : Platform) (w w' : W) (b : Bool)
      → uio_map_mmio os (p, w) ≡ some (b, (p', w'))
      → (p'.drv_handle ≡ p.drv_handle) × (p'.addr_span ≡ p.addr_span)
  unfolding uio_map_mmio
  uio_map_mmio-keeps p p' w w' b h = ground arith

  uio_scan_interfaces-held :
      (p p' : Platform) (w w' : W) (b : Bool)
      → uio_scan_interfaces os (p, w) ≡ some (b, (p', w'))
      → (b ≡ true) × (held w' ≡ held w) × Kept p p'
  unfolding uio_scan_interfaces Kept
  uio_scan_interfaces-held p p' w w' b h = ground (arith, laws.has_memory_lem 1 w)

  uio_create_interrupt_thread-held :
      (p p' : Platform) (w w' : W) (b : Bool)
      → uio_create_interrupt_thread os (p, w) ≡ some (b, (p', w'))
      → (held w' ≡ held w) × Kept p p'
  unfolding uio_create_interrupt_thread Kept
  uio_create_interrupt_thread-held p p' w w' b h =
      let w1 = (os.sem_init w).1 in
      let w2 = (os.rwlock_init w1).1 in
      let w3 = (os.wrlock w2).1 in
      let w4 = (os.unlock w3).1 in
      ground (
        arith,
        laws.sem_init_lem w,
        laws.rwlock_init_lem w1,
        laws.wrlock_lem w2,
        laws.unlock_lem w3,
        laws.pthread_create_lem w4,
      )

  start_thread-held :
      (p p' : Platform) (w w' : W) (b : Bool)
      → start_thread os (p, w) ≡ some (b, (p', w'))
      → (b ≡ true) × (held w' ≡ held w) × Kept p p'
  unfolding start_thread Kept
  start_thread-held p p' w w' b h = elim (Option-cases (uio_create_interrupt_thread os (p, w))) [
    | inl e ↦ ground arith
    | inr ((b1, (p1, w1)), e) ↦ ground (arith, uio_create_interrupt_thread-held p p1 w w1 b1 e)
  ]

  uio_get_sysfs_map_file_to_uint64-held :
      (path : List ℕ) (w : W) → held ((uio_get_sysfs_map_file_to_uint64 os path w).1) ≡ held w
  unfolding uio_get_sysfs_map_file_to_uint64
  uio_get_sysfs_map_file_to_uint64-held path w =
      let w1 = (os.fopen path w).1 in
      elim (Option-cases ((os.fopen path w).0)) [
        | inl e ↦ ground (arith, laws.fopen_lem path w)
        | inr (s, e) ↦
            let w2 = (os.fscanf_lx s w1).1 in
            let opened : held w1 ≡ stream s ∷ held w =
              laws.fopen_lem path w ∙ ap (λ o. with_stream o (held w)) e in
            rw (uio_get_sysfs_map_file_to_uint64, e)
              (laws.fclose_lem s w2 (held w) (laws.fscanf_lx_lem s w1 ∙ opened))
      ]

  uio_update_based_on_sysfs-held :
      (p p' : Platform) (w w' : W)
      → uio_update_based_on_sysfs os (p, w) ≡ some (tt, (p', w'))
      → held w' ≡ held w
  unfolding uio_update_based_on_sysfs
  uio_update_based_on_sysfs-held p p' w w' h =
      elim (Option-cases (uio_get_sysfs_map_path p.drv_path p.errno)) [
        | inl e ↦ ground arith
        | inr ((map_path, errno), e) ↦
            ground (
              arith,
              uio_get_sysfs_map_file_to_uint64-held (map_path ++ codes "size" ++ (0 ∷ [])) w,
            )
      ]

  -- What open_platform and fpga_platform_init leave.
  unfoldable pub Holding : (p' : Platform) (w w' : W) (b : Bool) → Type 0
  Holding p' w w' b =
      held w'
      ≡ (if b then mapping p'.mmap_ptr p'.addr_span ∷ descriptor p'.drv_handle ∷ held w else held w)

  -- With the device open: the mapping and what follows it.
  mapped-held :
      (p p' : Platform) (w0 w w' : W) (b : Bool)
      → held w ≡ descriptor p.drv_handle ∷ held w0
      → map_platform os (p, w) ≡ some (b, (p', w'))
      → Holding p' w0 w' b
  unfolding map_platform err_map Holding Kept
  mapped-held p p' w0 w w' b opened h = elim (Option-cases (uio_map_mmio os (p, w))) [
    | inl e ↦ ground arith
    | inr ((false, (p1, w1)), e) ↦
        let (same, _) = uio_map_mmio-keeps p p1 w w1 false e in
        let at_end =
          uio_map_mmio-held p p1 w w1 false e
          ∙ opened
          ∙ ap (λ d. descriptor d ∷ held w0) (sym same) in
        ground (arith, laws.close_lem p1.drv_handle w1 (held w0) at_end)
    | inr ((true, (p1, w1)), e) ↦ elim (Option-cases (uio_scan_interfaces os (p1, w1))) [
      | inl e1 ↦ ground arith
      | inr ((b2, (p2, w2)), e2) ↦ elim (Option-cases (start_thread os (p2, w2))) [
        | inl e3 ↦ ground (arith, uio_scan_interfaces-held p1 p2 w1 w2 b2 e2)
        | inr ((b3, (p3, w3)), e3) ↦ ground (
          arith,
          uio_map_mmio-keeps p p1 w w1 true e,
          uio_map_mmio-held p p1 w w1 true e,
          opened,
          uio_scan_interfaces-held p1 p2 w1 w2 b2 e2,
          start_thread-held p2 p3 w2 w3 b3 e3,
        )
      ]
    ]
  ]

  open_platform-held :
      (p p' : Platform) (w w' : W) (b : Bool)
      → open_platform os (p, w) ≡ some (b, (p', w'))
      → Holding p' w w' b
  unfolding open_platform Holding Kept
  open_platform-held p p' w w' b h = elim (Option-cases (uio_open_driver os (p, w))) [
    | inl e ↦ ground arith
    | inr ((false, (p1, w1)), e) ↦ ground (arith, uio_open_driver-held p p1 w w1 false e)
    | inr ((true, (p1, w1)), e) ↦
        mapped-held p1 p' w w1 w' b (uio_open_driver-held p p1 w w1 true e) (ground arith)
  ]

  -- On a system that keeps the laws of `HeldLaws`, let `fpga_platform_init` return, for any
  -- options. If it answers true, the process has come to hold the descriptor and the mapping of the
  -- device, those that the globals name, and nothing else. If it answers false, it holds what it
  -- held before.
  pub fpga_platform_init-held :
      (args : List GetoptResult) (p p' : Platform) (w w' : W) (b : Bool)
      → fpga_platform_init os args (p, w) ≡ some (b, (p', w'))
      → Holding p' w w' b
  unfolding fpga_platform_init Holding
  fpga_platform_init-held args p p' w w' b h = elim (Option-cases (uio_parse_args args p)) [
    | inl e ↦ ground arith
    | inr (p1, e) ↦ elim (Option-cases (uio_update_based_on_sysfs os (p1, w))) [
      | inl e1 ↦ ground arith
      | inr ((u, (p2, w2)), e2) ↦
          let p3 = record p2 { in_thread_timeout = 100 } in
          let same = uio_update_based_on_sysfs-held p1 p2 w w2 e2 in
          elim (Bool-cases (uio_validate_args p2)) [
            | inl valid ↦
                open_platform-held p3 p' w2 w' b (ground arith)
                ∙ ap
                    (λ l.
                      if b
                      then mapping p'.mmap_ptr p'.addr_span ∷ descriptor p'.drv_handle ∷ l
                      else l)
                    same
            | inr invalid ↦ ground arith
          ]
    ]
  ]
