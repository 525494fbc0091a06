-- ===== src/Uio/Tests.antt =====
-- A device of sixteen bytes behind a kernel on which every call succeeds.
use remote_debug_for_intel_f.Prelude.{
  ℕ, ◌+◌, ◌-◌, ◌^◌, ◌≡◌, ◌≢◌, refl, ap, true, false, List, [], ◌∷◌, ◌++◌, none, some, arith, u64,
}
use remote_debug_for_intel_f.Prelude.Int.{pos, minus_one}
use remote_debug_for_intel_f.CString.{literal, advance, deref}
use remote_debug_for_intel_f.CString.Decimal.{decimal}
use remote_debug_for_intel_f.CString.Strtol.{
  isdigit, isxdigit, is_hex_prefix, strtol, erange, number_of, scan_digits, digit_value,
}
use remote_debug_for_intel_f.Messages.{returned}
use remote_debug_for_intel_f.Interfaces.{
  InterfaceVec, zero_info, fpga_open, common_fpga_interface_info_vec_resize,
  common_fpga_interface_info_vec_reserve,
}
use remote_debug_for_intel_f.Uio.Access.{fpga_uio_get_base_address}
use remote_debug_for_intel_f.Uio.Globals.{Platform, UioOs, initial_platform}
use remote_debug_for_intel_f.Uio.Args.{
  letter, is_all_digit, uio_parse_integer_arg, parse_arg, uio_parse_args,
}
use remote_debug_for_intel_f.Uio.Args.Numbers.{
  uio_parse_integer_arg-decimal, uio_parse_integer_arg-stale_errno,
}
use remote_debug_for_intel_f.Uio.Sysfs.{uio_update_based_on_sysfs}
use remote_debug_for_intel_f.Uio.Platform.{
  uio_open_driver, uio_map_mmio, uio_scan_interfaces, uio_create_interrupt_thread, start_thread,
  map_platform, open_platform, fpga_platform_init, fpga_platform_cleanup, uio_validate_args,
  join_thread, stop_thread,
}
use remote_debug_for_intel_f.Uio.Platform.Resources.{
  Resource, descriptor, mapping, HeldLaws, Holding, fpga_platform_init-held,
}
use remote_debug_for_intel_f.Uio.Platform.Ready.{fpga_open-fpga_platform_init}
use remote_debug_for_intel_f.Uio.Platform.Cleanup.{NoPath, fpga_platform_init-fpga_platform_cleanup}
use remote_debug_for_intel_f.Uio.Thread.{
  at_poll, at_wait, Shared, working, posted, Reach, starts, thread, main, rdlock, unlock, stay,
  enabled, disabled, opens, arms, enables, sets_flag, reads_value, posts_exit,
}
use remote_debug_for_intel_f.Uio.Thread.Leaving.{AlwaysEnds, thread-AlwaysEnds}
use remote_debug_for_intel_f.Uio.Thread.Descriptors.{Tidy, thread-descriptors}

uio_parse_integer_arg-decimal_example :
    uio_parse_integer_arg (decimal 4096 ++ 0 ∷ []) 0 ≡ some (4096, 0)
uio_parse_integer_arg-decimal_example =
    uio_parse_integer_arg-decimal 4096 0 [] (omega arith) (λ e. ground (arith, e))

uio_parse_integer_arg-stale_errno_example : (◌≡◌ {A = ℕ} 0 0) × (erange ≡ erange)
unfolding uio_parse_integer_arg is_hex_prefix advance is_all_digit isdigit strtol number_of deref
    scan_digits digit_value
uio_parse_integer_arg-stale_errno_example =
    uio_parse_integer_arg-stale_errno (literal "4096") 0 erange refl

-- The digits of "09" are accepted, and read as octal.
octal_zero : uio_parse_integer_arg (literal "09") 0 ≡ some (0, 0)
unfolding uio_parse_integer_arg is_hex_prefix advance is_all_digit isdigit strtol number_of deref
    scan_digits digit_value
octal_zero = refl

hexadecimal : uio_parse_integer_arg (literal "0x10") 0 ≡ some (16, 0)
unfolding uio_parse_integer_arg is_hex_prefix advance is_all_digit isxdigit strtol number_of deref
    scan_digits digit_value
hexadecimal = refl

too_large : uio_parse_integer_arg (literal "9223372036854775808") 0 ≡ some (0, erange)
unfolding uio_parse_integer_arg is_hex_prefix advance is_all_digit isdigit strtol number_of deref
    scan_digits digit_value
too_large = refl

-- The kernel is the list of what it has handed out.
abbrev pub behind : List Resource → List Resource
behind [] = []
behind (r ∷ held) = held

abbrev pub kernel : UioOs (List Resource)
kernel = record {
  open_rdwr = λ path w. (pos 3, descriptor (pos 3) ∷ w);
  close = λ h w. behind w;
  mmap = λ span h w. (some 8192, mapping 8192 span ∷ w);
  munmap = λ address span w. behind w;
  fopen = λ path w. (none, w);
  fscanf_lx = λ s w. (none, w);
  fclose = λ s w. behind w;
  sem_init = λ w. (0, w);
  rwlock_init = λ w. (0, w);
  wrlock = λ w. (0, w);
  unlock = λ w. (0, w);
  sem_getvalue = λ w. ((0, 0), w);
  sem_post = λ w. (0, w);
  pthread_create = λ w. (some 7, w);
  pthread_join = λ thread w. (0, w);
  has_memory = λ size w. (true, w);
  throw_returns = λ w. (false, w);
}

kernel_laws : HeldLaws kernel (λ w. w)
kernel_laws = record {
  open_rdwr_lem = λ path w. refl;
  close_lem = λ h w l e. ap behind e;
  mmap_lem = λ span h w. refl;
  munmap_lem = λ address span w l e. ap behind e;
  fopen_lem = λ path w. refl;
  fscanf_lx_lem = λ s w. refl;
  fclose_lem = λ s w l e. ap behind e;
  sem_init_lem = λ w. refl;
  rwlock_init_lem = λ w. refl;
  wrlock_lem = λ w. refl;
  unlock_lem = λ w. refl;
  pthread_create_lem = λ w. refl;
  has_memory_lem = λ size w. refl;
}

abbrev pub running : Platform
running = record initial_platform {
  addr_span = 4096;
  in_thread_timeout = 100;
  drv_handle = pos 3;
  mmap_ptr = 8192;
  int_thread_id = 7;
  interfaces = record {
    vec = record zero_info { base_address = 8192 } ∷ [];
    vec_size = 1;
    vec_reserved = 1;
  };
}

abbrev pub holding : List Resource
holding = mapping 8192 4096 ∷ descriptor (pos 3) ∷ []

starts_running :
    fpga_platform_init kernel (letter b's' (literal "4096") ∷ []) (initial_platform, [])
    ≡ some (true, (running, holding))
unfolding fpga_platform_init uio_parse_args parse_arg uio_parse_integer_arg is_hex_prefix advance
    is_all_digit isdigit strtol number_of deref scan_digits digit_value uio_update_based_on_sysfs
    uio_validate_args open_platform map_platform uio_open_driver uio_map_mmio uio_scan_interfaces
    start_thread uio_create_interrupt_thread common_fpga_interface_info_vec_resize
    common_fpga_interface_info_vec_reserve
starts_running = refl

fpga_platform_init-held_example : Holding kernel (λ w. w) kernel_laws running [] holding true
fpga_platform_init-held_example =
    fpga_platform_init-held kernel (λ w. w) kernel_laws (letter b's' (literal "4096") ∷ [])
      initial_platform running [] holding true starts_running

fpga_open-fpga_platform_init_example :
    (v' : InterfaceVec) × (fpga_open 0 running.interfaces ≡ some (pos 0, v'))
    × (fpga_uio_get_base_address v' (pos 0) ≡ some (u64 (running.mmap_ptr + running.start_addr)))
fpga_open-fpga_platform_init_example =
    fpga_open-fpga_platform_init kernel (letter b's' (literal "4096") ∷ []) initial_platform running
      [] holding starts_running refl

abbrev pub cleaned : Platform
cleaned = record running {
  drv_path = none;
  start_addr = 0;
  addr_span = 0;
  single_component_mode = 0;
  drv_handle = minus_one;
  mmap_ptr = 0;
  int_flags = 1;
  errno = 2 ^ 32 - 1;
  interfaces = record { vec = []; vec_size = 0; vec_reserved = 0 };
}

pub ends_clean :
    fpga_platform_cleanup kernel (running, holding)
    ≡ (returned tt, (cleaned, descriptor (pos 3) ∷ []))
unfolding fpga_platform_cleanup join_thread stop_thread common_fpga_interface_info_vec_resize
    common_fpga_interface_info_vec_reserve
ends_clean = refl

fpga_platform_init-fpga_platform_cleanup_example :
    fpga_platform_init kernel (letter b's' (literal "4096") ∷ []) (cleaned, descriptor (pos 3) ∷ [])
    ≢ some (true, (running, holding))
unfolding NoPath
fpga_platform_init-fpga_platform_cleanup_example =
    fpga_platform_init-fpga_platform_cleanup kernel (letter b's' (literal "4096") ∷ []) running
      cleaned holding (descriptor (pos 3) ∷ []) (running, holding) ends_clean (refl, tt)

-- The thread comes to wait before it is asked to leave.
abbrev idle : Shared
idle = record {
  int_flags = 0;
  interrupt_enable = false;
  isr_callback = 0;
  sem = 0;
  opened = [];
  isr_calls = 0;
}

waiting : Reach posted at_wait (record idle { int_flags = 1; sem = 1 })
waiting =
    main
      (main
        (main
          (thread
            (thread (thread (thread (starts idle refl refl) (rdlock idle)) (unlock 0 idle))
              (stay 0 idle refl))
            (disabled idle refl))
          (sets_flag idle))
        (reads_value (record idle { int_flags = 1 })))
      (posts_exit (record idle { int_flags = 1 }))

thread-AlwaysEnds_example : AlwaysEnds at_wait (record idle { int_flags = 1; sem = 1 })
thread-AlwaysEnds_example = thread-AlwaysEnds waiting

-- The thread polls a descriptor.
abbrev enabled_once : Shared
enabled_once = record idle { interrupt_enable = true }

polling : Reach working (at_poll 5) (record enabled_once { opened = 5 ∷ [] })
polling =
    thread
      (thread
        (thread
          (thread
            (thread
              (thread (main (starts idle refl refl) (enables working idle)) (rdlock enabled_once))
              (unlock 0 enabled_once))
            (stay 0 enabled_once refl))
          (enabled enabled_once refl))
        (opens 5 enabled_once))
      (arms 5 (record enabled_once { opened = 5 ∷ [] }))

thread-descriptors_example : Tidy (at_poll 5) (5 ∷ [])
thread-descriptors_example = thread-descriptors polling
