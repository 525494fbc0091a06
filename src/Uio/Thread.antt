-- ===== src/Uio/Thread.antt =====
-- uio_interrupt_thread of protodrv_api/uio/src/intel_fpga_platform_api_uio.c beside the program that
-- starts it and asks it to leave. A step is one system call or one access to a shared global; a
-- system call answers as it likes, except that sem_wait waits. What happens between lock and unlock is
-- one step. What a callback changes besides is a step of the program.
pub mod Leaving
pub mod Descriptors
use remote_debug_for_intel_f.Prelude.{
  ℕ, zero, suc, ◌+◌, ◌-◌, ◌<◌, Bool, true, false, List, [], ◌∷◌, ◌≡◌, ◌==◌, if◌then◌else◌, u16,
  bit_and, bit_or,
}
use remote_debug_for_intel_f.Uio.Platform.{thread_exit}

-- Where the thread stands, with its locals `flags` and `fd`; `failed` is behind a break.
pub data Pc : Type 0 where
  at_rdlock : Pc
  at_unlock : (flags : ℕ) → Pc
  at_flags : (flags : ℕ) → Pc
  at_enable : Pc
  at_open : Pc
  at_arm : (fd : ℕ) → Pc
  at_poll : (fd : ℕ) → Pc
  at_isr : (fd : ℕ) → Pc
  at_call : (fd : ℕ) → Pc
  at_close : (fd : ℕ) → Pc
  at_wait : Pc
  finished : Pc
  failed : Pc

-- s_intFlags, the first entry of the table, g_intSem, the open descriptors, the calls of the callback.
pub record Shared : Type 0 where
  pub int_flags : ℕ
  pub interrupt_enable : Bool
  pub isr_callback : ℕ
  pub sem : ℕ
  pub opened : List ℕ
  pub isr_calls : ℕ

-- What is open after close (fd).
unfoldable pub close_fd : (fd : ℕ) → List ℕ → List ℕ
close_fd fd [] = []
close_fd fd (x ∷ xs) = elim (x == fd) [ true ↦ xs | false ↦ x ∷ close_fd fd xs ]

abbrev pub closing : (fd : ℕ) → Shared → Shared
closing fd s = record s { opened = close_fd fd s.opened }

-- !(flags & FPGA_PLATFORM_INT_THREAD_EXIT)
abbrev pub goes_on : (flags : ℕ) → Bool
goes_on flags = bit_and flags thread_exit == 0

-- The callback is read again for the call. Where the program has made it NULL in between, the call is
-- undefined; the step then stands for nothing but going on.
pub data ThreadStep : Pc → Shared → Pc → Shared → Type 0 where
  rdlock_failed : (s : Shared) → ThreadStep at_rdlock s failed s
  rdlock : (s : Shared) → ThreadStep at_rdlock s (at_unlock (u16 s.int_flags)) s
  unlock_failed : (flags : ℕ) (s : Shared) → ThreadStep (at_unlock flags) s failed s
  unlock : (flags : ℕ) (s : Shared) → ThreadStep (at_unlock flags) s (at_flags flags) s
  leave :
      (flags : ℕ) (s : Shared) → goes_on flags ≡ false → ThreadStep (at_flags flags) s finished s
  stay : (flags : ℕ) (s : Shared) → goes_on flags ≡ true → ThreadStep (at_flags flags) s at_enable s
  enabled : (s : Shared) → s.interrupt_enable ≡ true → ThreadStep at_enable s at_open s
  disabled : (s : Shared) → s.interrupt_enable ≡ false → ThreadStep at_enable s at_wait s
  open_failed : (s : Shared) → ThreadStep at_open s failed s
  opens :
      (fd : ℕ) (s : Shared) → ThreadStep at_open s (at_arm fd) (record s { opened = fd ∷ s.opened })
  arm_failed : (fd : ℕ) (s : Shared) → ThreadStep (at_arm fd) s failed (closing fd s)
  arms : (fd : ℕ) (s : Shared) → ThreadStep (at_arm fd) s (at_poll fd) s
  times_out : (fd : ℕ) (s : Shared) → ThreadStep (at_poll fd) s (at_close fd) s
  interrupted : (fd : ℕ) (s : Shared) → ThreadStep (at_poll fd) s (at_isr fd) s
  isr_missing :
      (fd : ℕ) (s : Shared)
      → (s.isr_callback == 0) ≡ true
      → ThreadStep (at_isr fd) s failed (closing fd s)
  isr_there :
      (fd : ℕ) (s : Shared)
      → (s.isr_callback == 0) ≡ false
      → ThreadStep (at_isr fd) s (at_call fd) s
  calls_isr :
      (fd : ℕ) (s : Shared)
      → ThreadStep (at_call fd) s (at_close fd) (record s { isr_calls = s.isr_calls + 1 })
  closes : (fd : ℕ) (s : Shared) → 0 < fd → ThreadStep (at_close fd) s at_rdlock (closing fd s)
  keeps_open : (s : Shared) → ThreadStep (at_close 0) s at_rdlock s
  waits : (s : Shared) → 0 < s.sem → ThreadStep at_wait s at_rdlock (record s { sem = s.sem - 1 })
  wait_failed : (s : Shared) → ThreadStep at_wait s failed s

-- How far fpga_platform_cleanup has come: before it, with the flag set, with the value of the semaphore
-- read, with the semaphore posted where that was 0.
pub data Phase : Type 0 where
  working : Phase
  flagged : Phase
  checked : (value : ℕ) → Phase
  posted : Phase

-- fpga_enable_interrupt, fpga_disable_interrupt, fpga_register_isr, and the cleanup. The sem_getvalue of
-- fpga_enable_interrupt changes nothing; its sem_post may come whenever that has found 0, and so at
-- any time.
pub data MainStep : Phase → Shared → Phase → Shared → Type 0 where
  enables : (ph : Phase) (s : Shared) → MainStep ph s ph (record s { interrupt_enable = true })
  posts : (ph : Phase) (s : Shared) → MainStep ph s ph (record s { sem = s.sem + 1 })
  disables : (ph : Phase) (s : Shared) → MainStep ph s ph (record s { interrupt_enable = false })
  registers :
      (ph : Phase) (s : Shared) (isr : ℕ) → MainStep ph s ph (record s { isr_callback = isr })
  sets_flag :
      (s : Shared)
      → MainStep working s flagged (record s { int_flags = bit_or s.int_flags thread_exit })
  reads_value : (s : Shared) → MainStep flagged s (checked s.sem) s
  posts_exit : (s : Shared) → MainStep (checked 0) s posted (record s { sem = s.sem + 1 })
  posts_none : (value : ℕ) (s : Shared) → MainStep (checked (suc value)) s posted s

-- Every interleaving from the start of the thread on.
pub data Reach : Phase → Pc → Shared → Type 0 where
  starts : (s : Shared) → s.int_flags ≡ 0 → s.opened ≡ [] → Reach working at_rdlock s
  thread :
      {ph : Phase} {pc pc' : Pc} {s s' : Shared}
      → Reach ph pc s
      → ThreadStep pc s pc' s'
      → Reach ph pc' s'
  main :
      {ph ph' : Phase} {pc : Pc} {s s' : Shared}
      → Reach ph pc s
      → MainStep ph s ph' s'
      → Reach ph' pc s'
