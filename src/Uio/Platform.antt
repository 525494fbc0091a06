-- ===== src/Uio/Platform.antt =====
-- protodrv_api/uio/src/intel_fpga_platform_api_uio.c: the start and the end of the platform.
pub mod Resources
pub mod Ready
pub mod Cleanup
use remote_debug_for_intel_f.Prelude.{
  ℕ, ◌+◌, ◌-◌, ◌^◌, Bool, true, false, not, ◌&&◌, List, [], Option, none, some, Run, pure, ◌>>=◌,
  ◌>>◌, ltb, ◌==◌, if◌then◌else◌, u64, set, get_elem?, bit_or,
}
use remote_debug_for_intel_f.Prelude.Int.{ℤ, pos, negsuc, minus_one}
use remote_debug_for_intel_f.Messages.{Ended, returned, exited}
use remote_debug_for_intel_f.Interfaces.{
  InterfaceVec, on_entry, common_fpga_interface_info_vec_resize,
}
use remote_debug_for_intel_f.Uio.Globals.{Platform, UioOs}
use remote_debug_for_intel_f.Uio.Args.{GetoptResult, uio_parse_args}
use remote_debug_for_intel_f.Uio.Sysfs.{uio_update_based_on_sysfs}

unfoldable pub uio_validate_args : Platform → Bool
uio_validate_args p = ltb 0 p.addr_span && elim p.drv_path [ none ↦ false | some _ ↦ true ]

-- MAP_FAILED
abbrev map_failed : ℕ
map_failed = 2 ^ 64 - 1

-- FPGA_PLATFORM_INT_THREAD_EXIT
abbrev pub thread_exit : ℕ
thread_exit = 1

module _ {W : Type 0} (os : UioOs W) where
  unfoldable pub uio_open_driver : Run (Platform × W) Bool
  uio_open_driver (p, w) = elim p.drv_path [
    | none ↦ none
    | some path ↦
        let (handle, w') = os.open_rdwr path w in
        let opened : Bool = elim handle [ pos _ ↦ true | negsuc n ↦ not (n == 0) ] in
        some (opened, (record p { drv_handle = handle }, w'))
  ]

  unfoldable pub uio_map_mmio : Run (Platform × W) Bool
  uio_map_mmio (p, w) =
      let (ptr, w') = os.mmap p.addr_span p.drv_handle w in
      elim ptr [
        | none ↦ some (false, (record p { mmap_ptr = map_failed }, w'))
        | some address ↦ some (true, (record p { mmap_ptr = address }, w'))
      ]

  -- The first entry is written where it lies in the block.
  unfoldable pub uio_scan_interfaces : Run (Platform × W) Bool
  uio_scan_interfaces (p, w) =
      if p.single_component_mode == 0
      then some (true, (p, w))
      else (let (granted, w') = os.has_memory 1 w in
          elim (common_fpga_interface_info_vec_resize granted 1 p.interfaces) [
            | none ↦ none
            | some (_, v) ↦ elim (get_elem? v.vec 0) [
              | none ↦ none
              | some info ↦
                  let info' = record info {
                    base_address = u64 (p.mmap_ptr + p.start_addr);
                    is_mmio_opened = false;
                    is_interrupt_opened = false;
                  } in
                  some (true, (record p { interfaces = record v { vec = set v.vec 0 info' } }, w'))
            ]
          ])

  -- The next call where the status so far is 0.
  abbrev and_then : ℕ × W → (W → ℕ × W) → ℕ × W
  and_then (rc, w) f = if rc == 0 then f w else (rc, w)

  unfoldable pub uio_create_interrupt_thread : Run (Platform × W) Bool
  uio_create_interrupt_thread (p, w) =
      let (rc, w1) =
        and_then (and_then (and_then (os.sem_init w) os.rwlock_init) os.wrlock) os.unlock in
      let p1 = record p { int_flags = 0 } in
      if rc == 0
      then (let (thread, w2) = os.pthread_create w1 in
          elim thread [
            | none ↦ some (false, (p1, w2))
            | some id ↦ some (true, (record p1 { int_thread_id = id }, w2))
          ])
      else some (false, (p1, w1))

  -- The labels err_scan, err_map and err_open, in the order in which they run on.
  unfoldable pub err_map : Run (Platform × W) Bool
  err_map (p, w) = some (false, (p, os.close p.drv_handle w))

  unfoldable pub err_scan : Run (Platform × W) Bool
  err_scan (p, w) = err_map (p, os.munmap p.mmap_ptr p.addr_span w)

  -- With the interfaces found: the thread, whose failure jumps to err_open with the result true.
  unfoldable pub start_thread : Run (Platform × W) Bool
  start_thread (p, w) =
      if p.single_component_mode == 0
      then some (true, (p, w))
      else elim (uio_create_interrupt_thread (p, w)) [ none ↦ none | some (_, s) ↦ some (true, s) ]

  -- With the device open.
  unfoldable pub map_platform : Run (Platform × W) Bool
  map_platform s1 = elim (uio_map_mmio s1) [
    | none ↦ none
    | some (false, s2) ↦ err_map s2
    | some (true, s2) ↦ elim (uio_scan_interfaces s2) [
      | none ↦ none
      | some (false, s3) ↦ err_scan s3
      | some (true, s3) ↦ start_thread s3
    ]
  ]

  unfoldable pub open_platform : Run (Platform × W) Bool
  open_platform s = elim (uio_open_driver s) [
    | none ↦ none
    | some (false, s1) ↦ some (false, s1)
    | some (true, s1) ↦ map_platform s1
  ]

  unfoldable pub fpga_platform_init : List GetoptResult → Run (Platform × W) Bool
  fpga_platform_init args (p, w) = elim (uio_parse_args args p) [
    | none ↦ none
    | some p1 ↦ elim (uio_update_based_on_sysfs os (p1, w)) [
      | none ↦ none
      | some (_, (p2, w2)) ↦
          let p3 = record p2 { in_thread_timeout = 100 } in
          if uio_validate_args p2 then open_platform (p3, w2) else some (false, (p3, w2))
    ]
  ]

  -- Telling the thread to leave: the status of the system calls.
  unfoldable pub stop_thread : Platform × W → ℕ × (Platform × W)
  stop_thread (p, w) =
      let (locked, w1) = os.wrlock w in
      if locked == 0
      then (let p' = record p { int_flags = bit_or p.int_flags thread_exit } in
          let (unlocked, w2) = os.unlock w1 in
          if unlocked == 0
          then (let ((status, value), w3) = os.sem_getvalue w2 in
              if status == 0
              then if value == 0
                then (let (posted, w4) = os.sem_post w3 in (posted, (p', w4)))
                else (0, (p', w3))
              else (status, (p', w3)))
          else (unlocked, (p', w2)))
      else (locked, (p, w1))

  -- `exited 1`: the exception handler did not return.
  unfoldable pub join_thread : Platform × W → Ended (Unit {0}) × (Platform × W)
  join_thread (p, w) =
      if p.int_thread_id == 0
      then (returned tt, (p, w))
      else (let (status, (p1, w1)) = stop_thread (p, w) in
          let (returns, w2) = if status == 0 then (true, w1) else os.throw_returns w1 in
          if returns
          then (let (_, w3) = os.pthread_join p1.int_thread_id w2 in (returned tt, (p1, w3)))
          else (exited 1, (p1, w2)))

  -- common_fpga_interface_info_vec_resize(0), which allocates nothing, and so cannot fail.
  abbrev emptied : InterfaceVec → InterfaceVec
  emptied v = elim (common_fpga_interface_info_vec_resize true 0 v) [ none ↦ v | some (_, v') ↦ v' ]

  unfoldable pub fpga_platform_cleanup : Platform × W → Ended (Unit {0}) × (Platform × W)
  fpga_platform_cleanup s =
      let (ended, (p, w)) = join_thread s in
      elim ended [
        | exited status ↦ (exited status, (p, w))
        | returned _ ↦
            let w' : W = elim p.drv_handle [ pos h ↦ os.close (pos h) w | negsuc _ ↦ w ] in
            let v = p.interfaces in
            let v' = if ltb 0 v.vec_size then emptied v else v in
            (
              returned tt,
              (
                record p {
                  drv_path = none;
                  start_addr = 0;
                  addr_span = 0;
                  single_component_mode = 0;
                  drv_handle = minus_one;
                  mmap_ptr = 0;
                  errno = 2 ^ 32 - 1;
                  interfaces = v';
                },
                w',
              ),
            )
      ]
