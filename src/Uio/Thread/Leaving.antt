-- ===== src/Uio/Thread/Leaving.antt =====
-- The end of uio_interrupt_thread, protodrv_api/uio/src/intel_fpga_platform_api_uio.c.
use remote_debug_for_intel_f.Prelude.{
  ℕ, zero, suc, ◌/◌, ◌%◌, ◌<◌, ◌≤◌, Bool, true, false, ◌≡◌, refl, ap, ◌==◌, if◌then◌else◌, u16,
  bit_and, bit_or, arith, Bool-cases, inl, inr,
}
use remote_debug_for_intel_f.Prelude.Bits.{and_low, or_low, and-zero}
use remote_debug_for_intel_f.Uio.Thread.{
  Pc, at_rdlock, at_unlock, at_flags, at_enable, at_open, at_arm, at_poll, at_isr, at_call,
  at_close, at_wait, finished, failed, Shared, goes_on, Phase, working, flagged, checked, posted,
  Reach, starts, thread, main, ThreadStep, rdlock_failed, rdlock, unlock_failed, unlock, leave,
  stay, enabled, disabled, open_failed, arms, times_out, isr_missing, isr_there, calls_isr, closes,
  keeps_open, waits, MainStep, enables, posts, disables, registers, sets_flag, reads_value,
  posts_exit, posts_none,
}

-- The thread's end.
unfoldable pub has_ended : Pc → Bool
has_ended finished = true
has_ended failed = true
has_ended _ = false

-- On every path of its own steps, whatever the system calls answer, the thread comes to its end.
pub data AlwaysEnds : Pc → Shared → Type 0 where
  ended : (pc : Pc) (s : Shared) → has_ended pc ≡ true → AlwaysEnds pc s
  moves :
      {pc : Pc} {s : Shared} {pc' : Pc} {s' : Shared}
      → ThreadStep pc s pc' s'
      → ((pc2 : Pc) (s2 : Shared) → ThreadStep pc s pc2 s2 → AlwaysEnds pc2 s2)
      → AlwaysEnds pc s

-- Does the flag tell the thread to leave at its next look?
unfoldable pub Leaves : (flags : ℕ) → Type 0
Leaves flags = goes_on (u16 flags) ≡ false

-- May it come to sem_wait before that look?
unfoldable pub may_wait : Pc → Bool
may_wait (at_unlock flags) = goes_on flags
may_wait (at_flags flags) = goes_on flags
may_wait at_enable = true
may_wait at_wait = true
may_wait _ = false

unfoldable pub IsAsked : Phase → Pc → Shared → Type 0
IsAsked working pc s = Unit
IsAsked flagged pc s = Leaves s.int_flags
IsAsked (checked v) pc s = Leaves s.int_flags × (0 < v → may_wait pc ≡ true → 0 < s.sem)
IsAsked posted pc s = Leaves s.int_flags × (may_wait pc ≡ true → 0 < s.sem)

bit_or-Leaves : (flags : ℕ) → Leaves (bit_or flags 1)
unfolding Leaves
bit_or-Leaves flags =
    let odd : bit_or flags 1 % 2 ≡ 1 = omega (arith, or_low flags 1) in
    let low : bit_and (u16 (bit_or flags 1)) 1 ≡ 1 =
      omega (arith, and_low (u16 (bit_or flags 1)) 1, and-zero (u16 (bit_or flags 1) / 2)) in
    ap (λ b. b == 0) low

main-IsAsked :
    {ph ph' : Phase} (pc : Pc) {s s' : Shared}
    → MainStep ph s ph' s'
    → IsAsked ph pc s
    → IsAsked ph' pc s'
unfolding IsAsked
main-IsAsked pc (enables working s) a = a
main-IsAsked pc (enables flagged s) a = a
main-IsAsked pc (enables (checked v) s) a = a
main-IsAsked pc (enables posted s) a = a
main-IsAsked pc (posts working s) a = a
main-IsAsked pc (posts flagged s) a = a
main-IsAsked pc (posts (checked v) s) a = (a.0, λ h m. omega arith)
main-IsAsked pc (posts posted s) a = (a.0, λ m. omega arith)
main-IsAsked pc (disables working s) a = a
main-IsAsked pc (disables flagged s) a = a
main-IsAsked pc (disables (checked v) s) a = a
main-IsAsked pc (disables posted s) a = a
main-IsAsked pc (registers working s isr) a = a
main-IsAsked pc (registers flagged s isr) a = a
main-IsAsked pc (registers (checked v) s isr) a = a
main-IsAsked pc (registers posted s isr) a = a
main-IsAsked pc (sets_flag s) a = bit_or-Leaves s.int_flags
main-IsAsked pc (reads_value s) a = (a, λ h m. h)
main-IsAsked pc (posts_exit s) a = (a.0, λ m. omega arith)
main-IsAsked pc (posts_none value s) a = (a.0, a.1 (omega arith))

step_flags :
    {pc : Pc} {s : Shared} {pc' : Pc} {s' : Shared}
    → ThreadStep pc s pc' s'
    → s'.int_flags ≡ s.int_flags
step_flags (rdlock_failed s) = refl
step_flags _ = refl

step_token :
    {pc : Pc} {s : Shared} {pc' : Pc} {s' : Shared}
    → ThreadStep pc s pc' s'
    → Leaves s.int_flags
    → (may_wait pc ≡ true → 0 < s.sem)
    → may_wait pc' ≡ true
    → 0 < s'.sem
unfolding may_wait Leaves
step_token (rdlock s) l t m = ground arith
step_token (unlock flags s) l t m = t m
step_token (stay flags s e) l t m = t e
step_token (enabled s e) l t m = t refl
step_token (disabled s e) l t m = t refl
step_token _ l t m = ground arith

thread-IsAsked :
    (ph : Phase) {pc : Pc} {s : Shared} {pc' : Pc} {s' : Shared}
    → ThreadStep pc s pc' s'
    → IsAsked ph pc s
    → IsAsked ph pc' s'
unfolding IsAsked Leaves
thread-IsAsked working st a = tt
thread-IsAsked flagged st a = rw (step_flags st) a
thread-IsAsked (checked v) st a = (rw (step_flags st) (a.0), λ h. step_token st (a.0) (a.1 h))
thread-IsAsked posted st a = (rw (step_flags st) (a.0), step_token st (a.0) (a.1))

Reach-IsAsked : {ph : Phase} {pc : Pc} {s : Shared} → Reach ph pc s → IsAsked ph pc s
unfolding IsAsked
Reach-IsAsked (starts s f o) = tt
Reach-IsAsked (thread {ph = ph} r st) = thread-IsAsked ph st (Reach-IsAsked r)
Reach-IsAsked (main {pc = pc} r st) = main-IsAsked pc st (Reach-IsAsked r)

-- The steps that are left at most, once the flag is set.
steps_left : Pc → ℕ
steps_left finished = 0
steps_left failed = 0
steps_left (at_flags flags) = if goes_on flags then 11 else 1
steps_left (at_unlock flags) = if goes_on flags then 12 else 2
steps_left at_rdlock = 3
steps_left (at_close fd) = 4
steps_left at_wait = 4
steps_left (at_call fd) = 5
steps_left (at_isr fd) = 6
steps_left (at_poll fd) = 7
steps_left (at_arm fd) = 8
steps_left at_open = 9
steps_left at_enable = 10

step_less :
    {pc : Pc} {s : Shared} {pc' : Pc} {s' : Shared}
    → ThreadStep pc s pc' s'
    → Leaves s.int_flags
    → steps_left pc' < steps_left pc
unfolding steps_left Leaves
step_less (rdlock s) l = ground arith
step_less (leave flags s e) l = ground arith
step_less (stay flags s e) l = ground arith
step_less (unlock flags s) l = ground arith
step_less (unlock_failed flags s) l = ground arith
step_less _ l = ground arith

-- A thread that has not ended, and need not wait, has a step to make.
step_exists :
    (pc : Pc) (s : Shared)
    → has_ended pc ≡ false
    → (may_wait pc ≡ true → 0 < s.sem)
    → (pc' : Pc) × (s' : Shared) × ThreadStep pc s pc' s'
unfolding has_ended may_wait
step_exists at_rdlock s h t = (_, _, rdlock s)
step_exists (at_unlock flags) s h t = (_, _, unlock flags s)
step_exists (at_flags flags) s h t = elim (Bool-cases (goes_on flags)) [
  | inl e ↦ (_, _, stay flags s e)
  | inr e ↦ (_, _, leave flags s e)
]
step_exists at_enable s h t = elim (Bool-cases s.interrupt_enable) [
  | inl e ↦ (_, _, enabled s e)
  | inr e ↦ (_, _, disabled s e)
]
step_exists at_open s h t = (_, _, open_failed s)
step_exists (at_arm fd) s h t = (_, _, arms fd s)
step_exists (at_poll fd) s h t = (_, _, times_out fd s)
step_exists (at_isr fd) s h t = elim (Bool-cases (s.isr_callback == 0)) [
  | inl e ↦ (_, _, isr_missing fd s e)
  | inr e ↦ (_, _, isr_there fd s e)
]
step_exists (at_call fd) s h t = (_, _, calls_isr fd s)
step_exists (at_close zero) s h t = (_, _, keeps_open s)
step_exists (at_close (suc fd)) s h t = (_, _, closes (suc fd) s (omega arith))
step_exists at_wait s h t = (_, _, waits s (t refl))
step_exists finished s h t = ground arith
step_exists failed s h t = ground arith

ends_within :
    (n : ℕ) (pc : Pc) (s : Shared)
    → steps_left pc ≤ n
    → Leaves s.int_flags
    → (may_wait pc ≡ true → 0 < s.sem)
    → AlwaysEnds pc s
ends_within zero pc s h l t = elim (Bool-cases (has_ended pc)) [
  | inl e ↦ ended pc s e
  | inr e ↦ let (pc', s', st) = step_exists pc s e t in absurd (omega (arith, h, step_less st l))
]
ends_within (suc n) pc s h l t = elim (Bool-cases (has_ended pc)) [
  | inl e ↦ ended pc s e
  | inr e ↦
      let (pc', s', st) = step_exists pc s e t in
      moves st (λ pc2 s2 st2.
        ends_within n pc2 s2 (omega (arith, h, step_less st2 l)) (rw (step_flags st2) l)
          (step_token st2 l t))
]

-- Once fpga_platform_cleanup has set the exit flag and posted the semaphore, unless it has found
-- its value above 0, in whatever state an interleaving of the thread and the program has left them,
-- the interrupt thread comes to its end on every path of its own steps, whatever the system calls
-- answer: it is never stuck in sem_wait, and never loops on. A call through a callback that the
-- program has made NULL between the test and the call is taken to go on.
pub thread-AlwaysEnds : {pc : Pc} {s : Shared} → Reach posted pc s → AlwaysEnds pc s
unfolding IsAsked
thread-AlwaysEnds {pc = pc} {s = s} r =
    let (l, t) = Reach-IsAsked r in ends_within (steps_left pc) pc s (omega arith) l t
