-- ===== src/Uio/Access/Words.antt =====
-- Whole words in plain memory, through the accesses of protodrv_api/uio/inc/intel_fpga_api_uio.h.
use remote_debug_for_intel_f.Prelude.{
  ℕ, drop-append_all, ◌+◌, ◌*◌, ◌/◌, ◌%◌, ◌^◌, ◌≤◌, ◌<◌, Bool, List, [], ◌∷◌, ◌++◌, some, ◌≡◌, refl,
  sym, ap, ◌∙◌, arith, take, drop, length, slice, blit, of_bytes, to_bytes, le→leb, length-append,
  blit_behind, take-append_left,
}
use remote_debug_for_intel_f.Prelude.Int.{ℤ}
use remote_debug_for_intel_f.Driver.Copy.{next_address}
use remote_debug_for_intel_f.Interfaces.{InterfaceVec}
use remote_debug_for_intel_f.Uio.Access.{
  have_read, have_written, ram, ram_load, ram_store, uio_mmio, fpga_uio_get_base_address,
}
use remote_debug_for_intel_f.Uio.Access.Bytes.{IsBytes, append-IsBytes, take-IsBytes, drop-IsBytes}
use remote_debug_for_intel_f.Uio.Access.Ram.{load_at, store_at}
use remote_debug_for_intel_f.Uio.Access.Emulation.{
  Placed, either_read, either_write, read_at, write_at,
}

-- Words of eight bytes, and their bytes.
unfoldable pub AreWords : List (List ℕ) → Type 0
AreWords [] = Unit
AreWords (w ∷ ws) = (length w ≡ 8) × IsBytes w × AreWords ws

abbrev pub concat : List (List ℕ) → List ℕ
concat [] = []
concat (w ∷ ws) = w ++ concat ws

pub to_bytes-of_bytes : (w : List ℕ) → IsBytes w → to_bytes (length w) (of_bytes w) ≡ w
unfolding IsBytes to_bytes of_bytes
to_bytes-of_bytes [] h = refl
to_bytes-of_bytes (b ∷ w) h =
    let low : (b + 256 * of_bytes w) % 256 ≡ b = omega (arith, h.0) in
    let high : (b + 256 * of_bytes w) / 256 ≡ of_bytes w = omega (arith, h.0) in
    rw (low, high, to_bytes-of_bytes w h.1) refl

pub subst-IsBytes : {xs ys : List ℕ} → xs ≡ ys → IsBytes xs → IsBytes ys
subst-IsBytes e h = rw (sym e) h

pub left-IsBytes : (xs ys : List ℕ) → IsBytes (xs ++ ys) → IsBytes xs
left-IsBytes xs ys h =
    subst-IsBytes (take-append_left xs ys) (take-IsBytes (length xs) (xs ++ ys) h)

pub right-IsBytes : (xs ys : List ℕ) → IsBytes (xs ++ ys) → IsBytes ys
right-IsBytes xs ys h =
    subst-IsBytes (drop-append_all xs ys) (drop-IsBytes (length xs) (xs ++ ys) h)

pub concat-IsBytes : (ws : List (List ℕ)) → AreWords ws → IsBytes (concat ws)
unfolding AreWords IsBytes
concat-IsBytes [] h = tt
concat-IsBytes (w ∷ ws) h = append-IsBytes w (concat ws) (h.1) (concat-IsBytes ws (h.2))

pub slice_behind :
    (front w back : List ℕ) → slice (front ++ (w ++ back)) (length front) (length w) ≡ some w
slice_behind front w back =
    let fits : length front + length w ≤ length (front ++ (w ++ back)) =
      omega (arith, length-append front (w ++ back), length-append w back) in
    rw
      (
        le→leb (length front + length w) (length (front ++ (w ++ back))) fits,
        drop-append_all front (w ++ back),
        take-append_left w back,
      )
      refl

module _ (start delta : ℕ) (v : InterfaceVec) (handle : ℤ) (emulate : Bool) where
  -- The registers of the handle lie `delta` behind the start of the memory.
  unfoldable pub At : Type 0
  At = fpga_uio_get_base_address v handle ≡ some (start + delta)

  place :
      At
      → (offset : ℕ) → offset + 4 < 2 ^ 31
      → start + delta + offset + 4 < 2 ^ 64
      → Placed start v handle offset (delta + offset) 4
  unfolding At Placed
  place a offset h b = (start + delta, a, omega arith, omega arith, omega arith)

  pub write_word :
      At
      → (offset : ℕ) (front room w : List ℕ) → offset + 4 < 2 ^ 31
      → start + delta + offset + 4 < 2 ^ 64
      → length front ≡ delta + offset
      → length w ≡ 8
      → IsBytes w
      → 8 ≤ length room
      → (uio_mmio (ram start) v emulate).write_64 handle offset (of_bytes w) (some (front ++ room))
        ≡ some ((front ++ w) ++ drop 8 room)
  write_word a offset front room w h b l e p r =
      let placed = place a offset h b in
      let word : to_bytes 8 (of_bytes w) ≡ w =
        ap (λ n. to_bytes n (of_bytes w)) (sym e) ∙ to_bytes-of_bytes w p in
      let blitted : blit (front ++ room) (delta + offset) (to_bytes 8 (of_bytes w))
          ≡ some ((front ++ w) ++ drop 8 room) =
        (λ i. blit (front ++ room) (sym l i) (word i))
        ∙ blit_behind front room w (omega (arith, e, r))
        ∙ ap (λ k. some ((front ++ w) ++ drop k room)) e in
      let stored : ram_store start 8 (start + (delta + offset)) (of_bytes w) (front ++ room)
          ≡ some (tt, (front ++ w) ++ drop 8 room) =
        store_at start 8 (delta + offset) (of_bytes w) (front ++ room) ∙ rw blitted refl in
      let wrote =
        either_write start v handle offset (delta + offset) emulate (of_bytes w) (front ++ room)
          placed
        ∙ write_at start v handle offset (delta + offset) 8 4 (of_bytes w) (front ++ room) placed
        ∙ stored in
      ap have_written wrote

  pub read_word :
      At
      → (offset : ℕ) (front w back : List ℕ) → offset + 4 < 2 ^ 31
      → start + delta + offset + 4 < 2 ^ 64
      → length front ≡ delta + offset
      → length w ≡ 8
      → IsBytes (front ++ (w ++ back))
      → (uio_mmio (ram start) v emulate).read_64 handle offset (some (front ++ (w ++ back)))
        ≡ (of_bytes w, some (front ++ (w ++ back)))
  read_word a offset front w back h b l e p =
      let mem = front ++ (w ++ back) in
      let placed = place a offset h b in
      let fits : delta + offset + 8 ≤ length mem =
        omega (arith, l, e, length-append front (w ++ back), length-append w back) in
      let there : take 8 (drop (delta + offset) mem) ≡ w =
        (λ i. take (sym e i) (drop (sym l i) mem))
        ∙ ap (take (length w)) (drop-append_all front (w ++ back))
        ∙ take-append_left w back in
      let loaded : ram_load start 8 (start + (delta + offset)) mem ≡ some (of_bytes w, mem) =
        load_at start 8 (delta + offset) mem
        ∙ rw (le→leb (delta + offset + 8) (length mem) fits, there) refl in
      ap have_read (
        either_read start v handle offset (delta + offset) emulate mem p placed
        ∙ read_at start v handle offset (delta + offset) 8 4 mem placed
        ∙ loaded)

  pub next_offset : (offset : ℕ) → offset + 8 < 2 ^ 31 → next_address offset ≡ some (offset + 8)
  next_offset offset h = ground arith
