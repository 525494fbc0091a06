-- ===== src/Driver/Slots/Poll.antt =====
-- get_h2t_buffer over the register that it polls.
use remote_debug_for_intel_f.Prelude.{
  ℕ, ◌+◌, ◌-◌, ◌^◌, ◌≤◌, ◌<◌, ◌≡◌, refl, Bool, List, some, length, drop,
}
use remote_debug_for_intel_f.Mmio.{Mmio}
use remote_debug_for_intel_f.Driver.{Device, Descriptors, get_aligned_sz}
use remote_debug_for_intel_f.Driver.Reg
use remote_debug_for_intel_f.Driver.Slots.{get_buffer, get_h2t_buffer}
use remote_debug_for_intel_f.Driver.Slots.Queue.{Holds}
use remote_debug_for_intel_f.Driver.Slots.Refine.{reserve, Answers, get_buffer_refines}

module _ {X : Type 0} (m : Mmio X) (s : Bool) (sz : ℕ) (d : Device X) where
  -- The device after a poll that leaves the descriptors `q`.
  abbrev polled : Descriptors → X → Device X
  polled q x = record { drv = record (d.drv) { h2t = q }; hw = x }

  poll_run :
      {available address : ℕ} {q : Descriptors} {x : X}
      → m.read_32 d.drv.mmio_handle Reg.h2t_available_slots d.hw ≡ (available, x)
      → get_buffer s available sz d.drv.h2t ≡ some (address, q)
      → get_h2t_buffer m s sz d ≡ some (address, polled q x)
  unfolding get_h2t_buffer
  poll_run reads gives = rw (reads, gives, get_h2t_buffer) (rw reads)

  -- get_h2t_buffer refines a queue of block sizes with a byte budget. Let the descriptors of H2T
  -- hold the queue `sizes`, and let the hardware's register read `available` slots: at least as
  -- many as the driver has recorded, fewer than 2^16, and with at most as many newly freed as
  -- blocks are out; let blocks out and recorded slots be at most 128 together, and the aligned size
  -- be below 2^16. Then the call returns. The freed blocks have left the queue, oldest first. Where
  -- the specification `reserve` admits the new block, it is the last of the queue and the answer is
  -- an address inside the ring other than 0; else the answer is 0 and the rest of the queue stays.
  -- The slots recorded are those that were read, MGMT's descriptors stay, and the hardware has only
  -- been read.
  pub get_h2t_buffer_refines :
      {sizes : List ℕ} (available : ℕ) (x : X)
      → Holds d.drv.h2t sizes
      → m.read_32 d.drv.mmio_handle Reg.h2t_available_slots d.hw ≡ (available, x)
      → d.drv.h2t.slots_available ≤ available
      → available < 2 ^ 16
      → available - d.drv.h2t.slots_available ≤ length sizes
      → length sizes + d.drv.h2t.slots_available ≤ 128
      → get_aligned_sz sz < 2 ^ 16
      → (address : ℕ) × (d' : Device X) × (get_h2t_buffer m s sz d ≡ some (address, d'))
        × Answers d.drv.h2t
            (drop (available - d.drv.h2t.slots_available) sizes)
            (reserve d.drv.h2t.rx_cbuff.span available
              (drop (available - d.drv.h2t.slots_available) sizes)
              (get_aligned_sz sz))
            address
            d'.drv.h2t
        × (d'.drv.h2t.slots_available ≡ available)
        × (d'.drv.mgmt ≡ d.drv.mgmt)
        × (d'.hw ≡ x)
  get_h2t_buffer_refines available x v reads grown small out room fits =
      let got = get_buffer_refines s available sz v grown small out room fits in
      (got.0, polled (got.1) x, poll_run reads (got.2), got.3, got.4, refl, refl)
