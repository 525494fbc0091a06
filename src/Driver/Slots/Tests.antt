-- ===== src/Driver/Slots/Tests.antt =====
-- The descriptor theorems with one block of 16 bytes out, which the hardware has just released.
use remote_debug_for_intel_f.Prelude.{
  ℕ, ◌+◌, ◌≡◌, refl, true, List, [], ◌∷◌, some, arith, drop, replicate, set,
}
use remote_debug_for_intel_f.CircleBuff.{CircleBuff}
use remote_debug_for_intel_f.Mmio.{Mmio}
use remote_debug_for_intel_f.Driver.{Device, initial_driver, Descriptors, get_aligned_sz}
use remote_debug_for_intel_f.Driver.Slots.{get_buffer, get_h2t_buffer}
use remote_debug_for_intel_f.Driver.Slots.Queue.{Holds}
use remote_debug_for_intel_f.Driver.Slots.Poll.{get_h2t_buffer_refines}
use remote_debug_for_intel_f.Driver.Slots.Refine.{reserve, Answers, get_buffer_refines}

abbrev ring : CircleBuff
ring = record {
  raw_buff = 2048;
  span = 64;
  write_offset = 48;
  read_offset = 32;
  space_available = 48;
}

abbrev chain : List ℕ
chain = set (replicate 128 0) 127 16

-- The block stands in the last entry, so that the next one goes round to the first.
abbrev one_out : Descriptors
one_out = record {
  slots_available = 9;
  chain = chain;
  write_idx = 128;
  read_idx = 127;
  rx_cbuff = ring;
}

abbrev sizes : List ℕ
sizes = 16 ∷ []

one_out-Holds : Holds one_out sizes
one_out-Holds = record {
  chain_length = refl;
  count = omega arith;
  read_in = omega arith;
  entries = (refl, tt);
  write_at = refl;
  write_in = omega arith;
  ring = record {
    nonempty = omega arith;
    based = omega arith;
    addressed = omega arith;
    space = omega arith;
    read_in = omega arith;
    write_in = omega arith;
    behind = refl;
  };
  held = refl;
}

small : (n : ℕ) → get_aligned_sz 20 + n ≡ 24 + n
unfolding get_aligned_sz
small n = refl

get_buffer_refines_example :
    (address : ℕ) × (q' : Descriptors) × (get_buffer true 10 20 one_out ≡ some (address, q'))
    × Answers one_out (drop 1 sizes) (reserve 64 10 (drop 1 sizes) (get_aligned_sz 20)) address q'
    × (q'.slots_available ≡ 10)
get_buffer_refines_example =
    get_buffer_refines true 10 20 one_out-Holds (omega arith) (omega arith) (omega arith)
      (omega arith) (omega (arith, small 0))

-- A register that always reports ten slots.
abbrev ten_slots : Mmio (Unit {0})
ten_slots = record {
  read_32 = λ h r x. (10, x);
  write_32 = λ h r v x. x;
  read_64 = λ h r x. (0, x);
  write_64 = λ h r v x. x;
}

abbrev device : Device (Unit {0})
device = record { drv = record initial_driver { h2t = one_out }; hw = tt }

get_h2t_buffer_refines_example :
    (address : ℕ) × (d' : Device (Unit {0})) × (get_h2t_buffer ten_slots true 20 device
      ≡ some (address, d'))
    × Answers one_out
        (drop 1 sizes)
        (reserve 64 10 (drop 1 sizes) (get_aligned_sz 20))
        address
        d'.drv.h2t
    × (d'.drv.h2t.slots_available ≡ 10)
    × (d'.drv.mgmt ≡ initial_driver.mgmt)
    × (d'.hw ≡ tt)
get_h2t_buffer_refines_example =
    get_h2t_buffer_refines ten_slots true 20 device {sizes = sizes} 10 tt one_out-Holds refl
      (omega arith) (omega arith) (omega arith) (omega arith) (omega (arith, small 0))
