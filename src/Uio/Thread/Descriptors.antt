-- ===== src/Uio/Thread/Descriptors.antt =====
-- The descriptors of uio_interrupt_thread, protodrv_api/uio/src/intel_fpga_platform_api_uio.c.
use remote_debug_for_intel_f.Prelude.{ℕ, true, List, [], ◌∷◌, ◌≡◌, refl, ◌==◌, ==_iff}
use remote_debug_for_intel_f.Uio.Thread.{
  Pc, at_arm, at_poll, at_isr, at_call, at_close, Shared, Phase, Reach, starts, thread, main,
  close_fd, ThreadStep, opens, arm_failed, isr_missing, closes, keeps_open, MainStep, enables,
}

unfoldable pub AllZero : List ℕ → Type 0
AllZero [] = Unit
AllZero (x ∷ xs) = (x ≡ 0) × AllZero xs

-- Open with `fd` in use: `fd`, and else nothing but 0.
unfoldable pub InUse : (fd : ℕ) → List ℕ → Type 0
InUse fd opened = (rest : List ℕ) × (opened ≡ fd ∷ rest) × AllZero rest

unfoldable pub Tidy : Pc → List ℕ → Type 0
Tidy (at_arm fd) opened = InUse fd opened
Tidy (at_poll fd) opened = InUse fd opened
Tidy (at_isr fd) opened = InUse fd opened
Tidy (at_call fd) opened = InUse fd opened
Tidy (at_close fd) opened = InUse fd opened
Tidy _ opened = AllZero opened

close_fd-InUse : (fd : ℕ) (opened : List ℕ) → InUse fd opened → AllZero (close_fd fd opened)
unfolding InUse close_fd
close_fd-InUse fd opened (rest, e, z) =
    let same : (fd == fd) ≡ true = (==_iff fd fd).1 refl in rw (e, close_fd, same) z

zero-InUse : (opened : List ℕ) → InUse 0 opened → AllZero opened
unfolding InUse AllZero
zero-InUse opened (rest, e, z) = rw e (refl, z)

main-opened : {ph ph' : Phase} {s s' : Shared} → MainStep ph s ph' s' → s'.opened ≡ s.opened
main-opened (enables ph s) = refl
main-opened _ = refl

thread-Tidy :
    {pc : Pc} {s : Shared} {pc' : Pc} {s' : Shared}
    → ThreadStep pc s pc' s'
    → Tidy pc s.opened
    → Tidy pc' s'.opened
unfolding Tidy InUse
thread-Tidy (opens fd s) t = (s.opened, refl, t)
thread-Tidy (arm_failed fd s) t = close_fd-InUse fd s.opened t
thread-Tidy (isr_missing fd s e) t = close_fd-InUse fd s.opened t
thread-Tidy (closes fd s h) t = close_fd-InUse fd s.opened t
thread-Tidy (keeps_open s) t = zero-InUse s.opened t
thread-Tidy _ t = t

-- In every interleaving of the interrupt thread with the program, the descriptor that the thread
-- has opened and not yet closed is open, and no other of its descriptors is, but for descriptor 0.
pub thread-descriptors : {ph : Phase} {pc : Pc} {s : Shared} → Reach ph pc s → Tidy pc s.opened
unfolding Tidy AllZero
thread-descriptors (starts s f o) = rw o tt
thread-descriptors (thread r st) = thread-Tidy st (thread-descriptors r)
thread-descriptors (main {pc = pc} r st) = rw (main-opened st) (thread-descriptors r)
