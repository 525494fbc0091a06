-- ===== src/Driver/Slots/Refine.antt =====
-- get_h2t_buffer and get_mgmt_buffer against a queue of block sizes with a budget of bytes.
use native.Mathlib.Decide.{dec_lt}
use remote_debug_for_intel_f.Prelude.{
  ℕ, ◌+◌, ◌-◌, ◌^◌, ◌≤◌, ◌<◌, ◌≡◌, ◌⊎◌, inl, inr, Bool, ◌&&◌, List, [], ◌∷◌, ◌++◌, Option, none,
  some, arith, length, drop, ltb, leb, sub32, if◌then◌else◌, ◌>>=◌, length-drop,
}
use remote_debug_for_intel_f.Driver.{Descriptors, get_aligned_sz}
use remote_debug_for_intel_f.Driver.Slots.{free_slots, take_slot, get_buffer}
use remote_debug_for_intel_f.Driver.Slots.Chain.{sum}
use remote_debug_for_intel_f.Driver.Slots.Queue.{
  Holds, Reclaimed, free_slots_lem, take_slot_fits, take_slot_refuses,
}

-- The specification: a block of `n` bytes joins the queue if there is a slot and the sizes of all
-- blocks stay within `budget`.
unfoldable pub reserve : (budget slots : ℕ) → List ℕ → ℕ → Option (List ℕ)
reserve budget slots sizes n =
    if ltb 0 slots && leb (sum sizes + n) budget then some (sizes ++ (n ∷ [])) else none

-- The answer `address` and the state `q'` are those of the specification's result: 0 and the old
-- queue, or an address in the memory and the new queue.
abbrev pub Answers : Descriptors → (old : List ℕ) → Option (List ℕ) → ℕ → Descriptors → Type 0
Answers q old none address q' = (address ≡ 0) × Holds q' old
Answers q old (some sizes) address q' =
    (q.rx_cbuff.raw_buff ≤ address)
    × (address < q.rx_cbuff.raw_buff + q.rx_cbuff.span)
    × (0 < address)
    × Holds q' sizes

reserve-some :
    (budget slots : ℕ) (sizes : List ℕ) (n : ℕ)
    → 0 < slots
    → sum sizes + n ≤ budget
    → reserve budget slots sizes n ≡ some (sizes ++ (n ∷ []))
unfolding reserve
reserve-some budget slots sizes n h k = ground arith

reserve-none :
    (budget slots : ℕ) (sizes : List ℕ) (n : ℕ)
    → (slots ≡ 0) ⊎ (budget < sum sizes + n)
    → reserve budget slots sizes n ≡ none
unfolding reserve
reserve-none budget slots sizes n (inl e) = ground arith
reserve-none budget slots sizes n (inr h) = ground arith

fits? :
    (budget slots total : ℕ) → ((0 < slots) × (total ≤ budget)) ⊎ ((slots ≡ 0) ⊎ (budget < total))
fits? budget slots total = elim (dec_lt 0 slots) [
  | no p ↦ inr (inl (omega arith))
  | yes p ↦ elim (dec_lt budget total) [ yes k ↦ inr (inr k) | no k ↦ inl (p, omega arith) ]
]

module _ (s : Bool) (available sz : ℕ) {q : Descriptors} {sizes : List ℕ} (v : Holds q sizes) where
  abbrev freed : ℕ
  freed = available - q.slots_available

  abbrev old : List ℕ
  old = drop freed sizes

  abbrev wanted : Option (List ℕ)
  wanted = reserve q.rx_cbuff.span available old (get_aligned_sz sz)

  take_slot_refines :
      (r : Descriptors)
      → Reclaimed q sizes freed r
      → q.slots_available ≤ available
      → length sizes + q.slots_available ≤ 128
      → freed ≤ length sizes
      → get_aligned_sz sz < 2 ^ 16
      → (address : ℕ) × (q' : Descriptors) × (take_slot sz r ≡ some (address, q'))
        × Answers q old wanted address q'
        × (q'.slots_available ≡ available)
  take_slot_refines r k h0 h1 h2 h3 =
      let n = get_aligned_sz sz in
      elim (fits? q.rx_cbuff.span available (sum old + n)) [
        | inl (p, fit) ↦
            let got =
              take_slot_fits sz k.rest (omega (arith, k.slots))
                (omega (arith, k.rest.held, k.rest.ring.space, k.span)) h3
                (omega (arith, length-drop freed sizes)) in
            (
              r.rx_cbuff.raw_buff + r.rx_cbuff.write_offset,
              got.0,
              got.1,
              rw (reserve-some q.rx_cbuff.span available old n p fit) (
                omega (arith, k.rest.ring, k.raw_buff, k.span),
                omega (arith, k.rest.ring, k.raw_buff, k.span),
                omega (arith, k.rest.ring),
                got.2.more,
              ),
              omega (arith, got.2.slots, k.slots),
            )
        | inr over ↦ (
          0,
          r,
          take_slot_refuses sz r (elim over [
            | inl e ↦ inl (omega (arith, k.slots))
            | inr h ↦ inr (omega (arith, k.rest.held, k.rest.ring.space, k.span))
          ]),
          rw (reserve-none q.rx_cbuff.span available old n over) (omega arith, k.rest),
          omega (arith, k.slots),
        )
      ]

  get_buffer_run :
      (f : ℕ) {r q' : Descriptors} {address : ℕ}
      → sub32 available q.slots_available ≡ f
      → free_slots s f q ≡ some (tt, r)
      → take_slot sz r ≡ some (address, q')
      → get_buffer s available sz q ≡ some (address, q')
  unfolding get_buffer
  get_buffer_run f e frees takes = rw (e, frees, ◌>>=◌) takes

  -- The text that get_h2t_buffer and get_mgmt_buffer share refines a queue of block sizes with a
  -- byte budget. Let the descriptors hold the queue `sizes`, and let `available` slots be reported:
  -- at least as many as are recorded, fewer than 2^16, and with at most as many newly freed as
  -- blocks are out; let blocks out and recorded slots be at most 128 together, and the aligned size
  -- be below 2^16. Then the call returns with the answer and the queue of the specification
  -- `reserve`, applied to the queue without the freed blocks, and records the slots that were
  -- reported.
  pub get_buffer_refines :
      q.slots_available ≤ available
      → available < 2 ^ 16
      → freed ≤ length sizes
      → length sizes + q.slots_available ≤ 128
      → get_aligned_sz sz < 2 ^ 16
      → (address : ℕ) × (q' : Descriptors) × (get_buffer s available sz q ≡ some (address, q'))
        × Answers q old wanted address q'
        × (q'.slots_available ≡ available)
  get_buffer_refines h0 ha h2 h1 h3 =
      let back = free_slots_lem s v freed h2 (omega arith) in
      let got = take_slot_refines (back.0) (back.2) h0 h1 h2 h3 in
      (got.0, got.1, get_buffer_run freed (omega arith) (back.1) (got.2), got.3, got.4)
