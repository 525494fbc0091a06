-- ===== src/Driver/Slots/Queue.antt =====
-- The descriptor globals of streaming/src/intel_st_debug_if_st_dbg_ip_driver.c hold a queue of block
-- sizes, oldest first: what one reclaim and one reservation do to it.
use native.Mathlib.Nat.{mod-lt}
use remote_debug_for_intel_f.Prelude.{
  ℕ, zero, suc, ◌+◌, ◌%◌, ◌^◌, ◌≤◌, ◌<◌, ◌≡◌, ◌⊎◌, inl, inr, refl, ◌∙◌, ap, Bool, List, [], ◌∷◌,
  ◌++◌, some, arith, get_or, set, length, take, drop, lt→ltb, get_or-set_self, u16, u32,
  get_or-set_ne, length-set, length-append, length-drop, take-append-drop, le→leb,
}
use remote_debug_for_intel_f.CircleBuff.{CircleBuff, cbuff_free, cbuff_alloc}
use remote_debug_for_intel_f.CircleBuff.Bounds
use remote_debug_for_intel_f.CircleBuff.Bounds.{used, cbuff_alloc_lem, cbuff_free_lem}
use remote_debug_for_intel_f.Driver.{Descriptors, get_aligned_sz}
use remote_debug_for_intel_f.Driver.Slots.{free_loop, on_cbuff, free_slots, take_slot}
use remote_debug_for_intel_f.Driver.Slots.Chain.{sum, Window, free_loop_lem}

-- The blocks that the hardware still reads, with the size of each as the chain records it.
pub record Holds (q : Descriptors) (sizes : List ℕ) : Type 0 where
  pub chain_length : length q.chain ≡ 128
  pub count : length sizes ≤ 128
  pub read_in : q.read_idx < 128
  pub entries : Window q.chain q.read_idx sizes
  pub write_at : (q.read_idx + length sizes) % 128 ≡ q.write_idx % 128
  pub write_in : q.write_idx < 2 ^ 16
  pub ring : Bounds.IsValid q.rx_cbuff
  pub held : used q.rx_cbuff ≡ sum sizes

sum-append : (xs ys : List ℕ) → sum (xs ++ ys) ≡ sum xs + sum ys
sum-append [] ys = omega arith
sum-append (x ∷ xs) ys = omega (arith, sum-append xs ys)

-- A prefix and the rest make up the whole.
sum-take-drop : (n : ℕ) (xs : List ℕ) → sum (take n xs) + sum (drop n xs) ≡ sum xs
sum-take-drop n xs =
    omega (arith, sum-append (take n xs) (drop n xs), ap sum (take-append-drop n xs))

Window-drop :
    (chain : List ℕ) (n r : ℕ) (sizes : List ℕ)
    → r < 128
    → n ≤ length sizes
    → Window chain r sizes
    → Window chain ((r + n) % 128) (drop n sizes)
Window-drop chain zero r sizes hr h w = let e : (r + 0) % 128 ≡ r = omega arith in rw e w
Window-drop chain (suc n) r [] hr h w = absurd (omega arith)
Window-drop chain (suc n) r (x ∷ sizes) hr h w =
    let e : (r + suc n) % 128 ≡ ((r + 1) % 128 + n) % 128 = omega arith in
    rw e (Window-drop chain n ((r + 1) % 128) sizes (omega arith) (omega arith) w.1)

-- A write `n` places behind the start spares a window of at most `n` entries.
Window-set :
    (chain : List ℕ) (k v n r : ℕ) (sizes : List ℕ)
    → r < 128
    → n < 128
    → length sizes ≤ n
    → k ≡ (r + n) % 128
    → Window chain r sizes
    → Window (set chain k v) r sizes
Window-set chain k v n r [] hr hn hl e w = tt
Window-set chain k v zero r (x ∷ sizes) hr hn hl e w = absurd (omega arith)
Window-set chain k v (suc n) r (x ∷ sizes) hr hn hl e w = (
  get_or-set_ne chain v 0 (omega arith) ∙ w.0,
  Window-set chain k v n ((r + 1) % 128) sizes (omega arith) (omega arith) (omega arith)
      (omega arith) w.1,
)

Window-append :
    (chain : List ℕ) (x r : ℕ) (sizes : List ℕ)
    → r < 128
    → get_or chain ((r + length sizes) % 128) 0 ≡ x
    → Window chain r sizes
    → Window chain r (sizes ++ (x ∷ []))
Window-append chain x r [] hr e w = let e' : (r + 0) % 128 ≡ r = omega arith in (rw e' at e, tt)
Window-append chain x r (y ∷ sizes) hr e w =
    let e' : (r + suc (length sizes)) % 128 ≡ ((r + 1) % 128 + length sizes) % 128 = omega arith in
    (w.0, Window-append chain x ((r + 1) % 128) sizes (omega arith) (rw e' at e) w.1)

-- What stays of `q` once the `freed` oldest of its blocks `sizes` are back.
pub record Reclaimed (q : Descriptors) (sizes : List ℕ) (freed : ℕ) (q' : Descriptors)
    : Type 0 where
  pub rest : Holds q' (drop freed sizes)
  pub slots : q'.slots_available ≡ q.slots_available + freed
  pub span : q'.rx_cbuff.span ≡ q.rx_cbuff.span
  pub raw_buff : q'.rx_cbuff.raw_buff ≡ q.rx_cbuff.raw_buff
  pub write_offset : q'.rx_cbuff.write_offset ≡ q.rx_cbuff.write_offset

module _ (s : Bool) {q : Descriptors} {sizes : List ℕ} (v : Holds q sizes) where
  -- `q` after the `freed` oldest blocks went back to the ring `c`.
  freed_state : (freed : ℕ) → CircleBuff → Descriptors
  freed_state freed c = record q {
    slots_available = q.slots_available + freed;
    read_idx = (q.read_idx + freed) % 128;
    rx_cbuff = c;
  }

  free_slots_run :
      (freed bytes : ℕ) {c : CircleBuff}
      → 0 < freed
      → freed < 2 ^ 16
      → q.slots_available + freed < 2 ^ 16
      → free_loop s 257 q.chain q.read_idx freed 0 0 ≡ some bytes
      → cbuff_free bytes q.rx_cbuff ≡ some (tt, c)
      → free_slots s freed q ≡ some (tt, freed_state freed c)
  unfolding free_slots freed_state
  free_slots_run freed bytes hf hk hs loop free =
      let slots : u16 (q.slots_available + freed) ≡ q.slots_available + freed = omega arith in
      let at : u32 (q.read_idx + freed) ≡ q.read_idx + freed = omega (arith, v.read_in) in
      rw (lt→ltb 0 freed hf, loop, slots, at) (rw (free, on_cbuff))

  some_freed :
      (freed : ℕ)
      → 0 < freed
      → freed ≤ length sizes
      → q.slots_available + freed < 2 ^ 16
      → (q' : Descriptors) × (free_slots s freed q ≡ some (tt, q')) × Reclaimed q sizes freed q'
  unfolding freed_state
  some_freed freed hf h hs =
      let bytes = sum (take freed sizes) in
      let parts : bytes + sum (drop freed sizes) ≡ sum sizes = sum-take-drop freed sizes in
      let small : sum sizes ≤ 2 ^ 32 = omega (arith, v.held, v.ring.addressed) in
      let back = cbuff_free_lem bytes v.ring (omega (arith, v.held)) in
      let start : (q.read_idx + 0) % 128 ≡ q.read_idx = omega (arith, v.read_in) in
      let loop : free_loop s 257 q.chain q.read_idx freed 0 0 ≡ some (0 + bytes) =
        free_loop_lem s 257 freed 0 freed q.chain q.read_idx 0 sizes (omega arith)
          (omega (arith, v.count)) (omega (arith, v.count)) h (omega arith) (rw start v.entries) in
      let bytes_eq : 0 + bytes ≡ bytes = omega arith in
      (
        freed_state freed (back.0),
        free_slots_run freed bytes hf (omega (arith, v.count)) hs (rw bytes_eq at loop) (back.1),
        record {
          rest = record {
            chain_length = v.chain_length;
            count = omega (arith, length-drop freed sizes, v.count);
            read_in = mod-lt (q.read_idx + freed) (omega arith);
            entries = Window-drop q.chain freed q.read_idx sizes v.read_in h v.entries;
            write_at = omega (arith, v.write_at, length-drop freed sizes);
            write_in = v.write_in;
            ring = back.2;
            held = omega (arith, back.3, v.held);
          };
          slots = refl;
          span = back.4;
          raw_buff = back.5;
          write_offset = back.6;
        },
      )

  -- For descriptors that hold the queue `sizes`, reclaiming up to all of its blocks succeeds if the
  -- slot count stays below 2^16. The descriptors then hold the queue without its first `freed`
  -- blocks, `freed` more slots are recorded, and memory, span and write offset of the ring stay.
  pub free_slots_lem :
      (freed : ℕ)
      → freed ≤ length sizes
      → q.slots_available + freed < 2 ^ 16
      → (q' : Descriptors) × (free_slots s freed q ≡ some (tt, q')) × Reclaimed q sizes freed q'
  unfolding free_slots
  free_slots_lem zero h hs = (
    q,
    refl,
    record { rest = v; slots = omega arith; span = refl; raw_buff = refl; write_offset = refl },
  )
  free_slots_lem (suc n) h hs = some_freed (suc n) (omega arith) h hs

-- What one reservation of `n` bytes leaves.
pub record Reserved (q : Descriptors) (sizes : List ℕ) (n : ℕ) (q' : Descriptors) : Type 0 where
  pub more : Holds q' (sizes ++ (n ∷ []))
  pub slots : q'.slots_available ≡ q.slots_available
  pub span : q'.rx_cbuff.span ≡ q.rx_cbuff.span
  pub raw_buff : q'.rx_cbuff.raw_buff ≡ q.rx_cbuff.raw_buff

module _ (sz : ℕ) {q : Descriptors} {sizes : List ℕ} (v : Holds q sizes) where
  abbrev aligned : ℕ
  aligned = get_aligned_sz sz

  abbrev taken : CircleBuff → Descriptors
  taken c = record q {
    chain = set q.chain (q.write_idx % 128) aligned;
    write_idx = u16 (q.write_idx + 1);
    rx_cbuff = c;
  }

  take_slot_run :
      {c : CircleBuff} {address : ℕ}
      → 0 < q.slots_available
      → aligned ≤ q.rx_cbuff.space_available
      → aligned < 2 ^ 16
      → cbuff_alloc aligned q.rx_cbuff ≡ some (address, c)
      → take_slot sz q ≡ some (address, taken c)
  unfolding take_slot
  take_slot_run hs hf hw alloc =
      let fits : u16 aligned ≡ aligned = omega arith in
      rw (lt→ltb 0 q.slots_available hs, le→leb aligned q.rx_cbuff.space_available hf, fits)
        (rw (alloc, on_cbuff))

  -- For descriptors that hold fewer than 128 blocks, with a slot, and with room for the aligned
  -- size, which is below 2^16, reserving gives the address of the write offset. The new block is
  -- then the last of the queue, and slots, memory and span stay.
  pub take_slot_fits :
      0 < q.slots_available
      → aligned ≤ q.rx_cbuff.space_available
      → aligned < 2 ^ 16
      → length sizes < 128
      → (q' : Descriptors) × (take_slot sz q
          ≡ some (q.rx_cbuff.raw_buff + q.rx_cbuff.write_offset, q'))
        × Reserved q sizes aligned q'
  take_slot_fits hs hf hw hn =
      let ring = cbuff_alloc_lem aligned v.ring hf in
      let at : q.write_idx % 128 ≡ (q.read_idx + length sizes) % 128 = omega (arith, v.write_at) in
      (
        taken (ring.0),
        take_slot_run hs hf hw (ring.1),
        record {
          more = record {
            chain_length = length-set q.chain (q.write_idx % 128) aligned ∙ v.chain_length;
            count = omega (arith, length-append sizes (aligned ∷ []));
            read_in = v.read_in;
            entries =
                Window-append (set q.chain (q.write_idx % 128) aligned) aligned q.read_idx sizes
                  v.read_in
                  (rw (← at) (
                    get_or-set_self q.chain (q.write_idx % 128) aligned 0
                      (omega (arith, v.chain_length))))
                  (Window-set q.chain (q.write_idx % 128) aligned (length sizes) q.read_idx sizes
                    v.read_in hn (omega arith) at v.entries);
            write_at = omega (arith, length-append sizes (aligned ∷ []), v.write_at, v.write_in);
            write_in = omega arith;
            ring = ring.2;
            held = omega (arith, ring.3, v.held, sum-append sizes (aligned ∷ []));
          };
          slots = refl;
          span = ring.4;
          raw_buff = ring.5;
        },
      )

-- Otherwise nothing changes and the answer is 0.
pub take_slot_refuses :
    (sz : ℕ) (q : Descriptors)
    → (q.slots_available ≡ 0) ⊎ (q.rx_cbuff.space_available < get_aligned_sz sz)
    → take_slot sz q ≡ some (0, q)
unfolding take_slot
take_slot_refuses sz q (inl e) = rw e
take_slot_refuses sz q (inr h) = ground arith
