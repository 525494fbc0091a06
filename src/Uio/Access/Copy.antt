-- ===== src/Uio/Access/Copy.antt =====
-- memcpy64_host2fpga and memcpy64_fpga2host of streaming/src/intel_st_debug_if_st_dbg_ip_driver.c over the
-- accesses of protodrv_api/uio/inc/intel_fpga_api_uio.h to plain memory.
use remote_debug_for_intel_f.Prelude.{
  ℕ, suc, ◌+◌, ◌*◌, ◌^◌, ◌≤◌, ◌<◌, Bool, List, [], ◌∷◌, ◌++◌, Option, some, ◌≡◌, refl, sym, ap, ◌∙◌,
  arith, u32, drop, length, slice, blit, of_bytes, to_bytes, length-append, length-drop,
  append_assoc, append-nil, blit_behind, drop-drop,
}
use remote_debug_for_intel_f.Prelude.Int.{ℤ}
use remote_debug_for_intel_f.Mmio.{Mmio}
use remote_debug_for_intel_f.Driver.{Device}
use remote_debug_for_intel_f.Driver.Copy.{
  host2fpga_loop, fpga2host_loop, memcpy64_host2fpga, memcpy64_fpga2host, next_address, transfers,
}
use remote_debug_for_intel_f.Interfaces.{InterfaceVec}
use remote_debug_for_intel_f.Uio.Access.{ram, uio_mmio, fpga_uio_get_base_address}
use remote_debug_for_intel_f.Uio.Access.Bytes.{IsBytes, append-IsBytes, drop-IsBytes}
use remote_debug_for_intel_f.Uio.Access.Words.{
  AreWords, concat, to_bytes-of_bytes, subst-IsBytes, left-IsBytes, right-IsBytes, concat-IsBytes,
  slice_behind, At, write_word, read_word, next_offset,
}

-- One round of each loop.
module _ {X : Type 0} (m : Mmio X) (n : ℕ) (host : List ℕ) (at offset offset' : ℕ) where
  host2fpga_step :
      (w : List ℕ) (hw : X) (d : Device X)
      → slice host at 8 ≡ some w
      → m.write_64 d.drv.mmio_handle offset (of_bytes w) d.hw ≡ hw
      → next_address offset ≡ some offset'
      → host2fpga_loop m (suc n) host at offset d
        ≡ host2fpga_loop m n host (at + 8) offset' (record d { hw = hw })
  unfolding host2fpga_loop
  host2fpga_step w hw d taken written next =
      rw (host2fpga_loop, taken, next)
        (ap (λ x. host2fpga_loop m n host (at + 8) offset' (record d { hw = x })) written)

  fpga2host_step :
      (a : ℕ) (hw : X) (host' : List ℕ) (d : Device X)
      → m.read_64 d.drv.mmio_handle offset d.hw ≡ (a, hw)
      → blit host at (to_bytes 8 a) ≡ some host'
      → next_address offset ≡ some offset'
      → fpga2host_loop m (suc n) offset host at d
        ≡ fpga2host_loop m n offset' host' (at + 8) (record d { hw = hw })
  unfolding fpga2host_loop
  fpga2host_step a hw host' d read stored next =
      let kept : blit host at (to_bytes 8 ((m.read_64 d.drv.mmio_handle offset d.hw).0))
          ≡ some host' =
        ap (λ p. blit host at (to_bytes 8 (p.0))) read ∙ stored in
      rw (fpga2host_loop, kept, next)
        (ap (λ p. fpga2host_loop m n offset' host' (at + 8) (record d { hw = p.1 })) read)

module _ (start delta : ℕ) (v : InterfaceVec) (handle : ℤ) (emulate : Bool) where
  -- The loops over words, between what has been done and what is left.
  pub host2fpga_loop-words :
      At start delta v handle emulate
      → (ws : List (List ℕ)) (offset : ℕ) (done rest front room : List ℕ)
        (d : Device (Option (List ℕ)))
      → AreWords ws
      → d.drv.mmio_handle ≡ handle
      → d.hw ≡ some (front ++ room)
      → length front ≡ delta + offset
      → offset + 8 * length ws < 2 ^ 31
      → start + delta + offset + 8 * length ws < 2 ^ 64
      → 8 * length ws ≤ length room
      → host2fpga_loop
          (uio_mmio (ram start) v emulate)
          (length ws)
          (done ++ (concat ws ++ rest))
          (length done)
          offset
          d
        ≡ some (tt, record d { hw = some ((front ++ concat ws) ++ drop (8 * length ws) room) })
  unfolding host2fpga_loop AreWords
  host2fpga_loop-words a [] offset done rest front room d ok hd hw l small high r =
      λ i. some (tt, record d { hw = (hw ∙ ap (λ f. some (f ++ room)) (sym (append-nil front))) i })
  host2fpga_loop-words a (w ∷ ws) offset done rest front room d ok hd hw l small high r =
      let m = uio_mmio (ram start) v emulate in
      let (e, bytes, oks) = ok in
      let host = done ++ ((w ++ concat ws) ++ rest) in
      let taken : slice host (length done) 8 ≡ some w =
        (λ i. slice (done ++ append_assoc w (concat ws) rest i) (length done) (sym e i))
        ∙ slice_behind done w (concat ws ++ rest) in
      let written : m.write_64 d.drv.mmio_handle offset (of_bytes w) d.hw
          ≡ some ((front ++ w) ++ drop 8 room) =
        (λ i. m.write_64 (hd i) offset (of_bytes w) (hw i))
        ∙ write_word start delta v handle emulate a offset front room w (omega arith) (omega arith)
            l e bytes (omega arith) in
      let same : host ≡ (done ++ w) ++ (concat ws ++ rest) =
        ap (λ t. done ++ t) (append_assoc w (concat ws) rest)
        ∙ sym (append_assoc done w (concat ws ++ rest)) in
      let moved : length done + 8 ≡ length (done ++ w) = omega (arith, e, length-append done w) in
      host2fpga_step m (length ws) host (length done) offset (offset + 8) w
        (some ((front ++ w) ++ drop 8 room)) d taken written
        (next_offset start delta v handle emulate offset (omega arith))
      ∙ (λ i.
          host2fpga_loop m (length ws) (same i) (moved i) (offset + 8)
            (record d { hw = some ((front ++ w) ++ drop 8 room) }))
      ∙ host2fpga_loop-words a ws (offset + 8) (done ++ w) rest (front ++ w) (drop 8 room)
          (record d { hw = some ((front ++ w) ++ drop 8 room) }) oks hd refl
          (omega (arith, l, e, length-append front w)) (omega arith) (omega arith)
          (omega (arith, r, length-drop 8 room))
      ∙ (λ i. some (
        tt,
        record d {
          hw = some (
              append_assoc front w (concat ws) i
              ++ (drop-drop (8 * length ws) 8 room
                    ∙ ap (λ k. drop k room) {x = 8 + 8 * length ws} {y = 8 * suc (length ws)}
                        (omega arith))
                  i);
        },
      ))

  pub fpga2host_loop-words :
      At start delta v handle emulate
      → (ws : List (List ℕ)) (offset : ℕ) (done rest front room : List ℕ)
        (d : Device (Option (List ℕ)))
      → AreWords ws
      → d.drv.mmio_handle ≡ handle
      → d.hw ≡ some (done ++ (concat ws ++ rest))
      → IsBytes (done ++ (concat ws ++ rest))
      → length done ≡ delta + offset
      → offset + 8 * length ws < 2 ^ 31
      → start + delta + offset + 8 * length ws < 2 ^ 64
      → 8 * length ws ≤ length room
      → fpga2host_loop
          (uio_mmio (ram start) v emulate)
          (length ws)
          offset
          (front ++ room)
          (length front)
          d
        ≡ some ((front ++ concat ws) ++ drop (8 * length ws) room, d)
  unfolding fpga2host_loop AreWords
  fpga2host_loop-words a [] offset done rest front room d ok hd hw p l small high r =
      ap (λ f. some (f ++ room, d)) (sym (append-nil front))
  fpga2host_loop-words a (w ∷ ws) offset done rest front room d ok hd hw p l small high r =
      let m = uio_mmio (ram start) v emulate in
      let (e, bytes, oks) = ok in
      let mem = done ++ (w ++ (concat ws ++ rest)) in
      let split : done ++ ((w ++ concat ws) ++ rest) ≡ mem =
        ap (λ t. done ++ t) (append_assoc w (concat ws) rest) in
      let behind : mem ≡ (done ++ w) ++ (concat ws ++ rest) =
        sym (append_assoc done w (concat ws ++ rest)) in
      let here : d.hw ≡ some mem = hw ∙ ap some split in
      let valid : IsBytes mem = subst-IsBytes split p in
      let read : m.read_64 d.drv.mmio_handle offset d.hw ≡ (of_bytes w, some mem) =
        (λ i. m.read_64 (hd i) offset (here i))
        ∙ read_word start delta v handle emulate a offset done w (concat ws ++ rest) (omega arith)
            (omega arith) l e valid in
      let word : to_bytes 8 (of_bytes w) ≡ w =
        ap (λ n. to_bytes n (of_bytes w)) (sym e) ∙ to_bytes-of_bytes w bytes in
      let stored : blit (front ++ room) (length front) (to_bytes 8 (of_bytes w))
          ≡ some ((front ++ w) ++ drop 8 room) =
        ap (blit (front ++ room) (length front)) word
        ∙ blit_behind front room w (omega (arith, e, r))
        ∙ ap (λ k. some ((front ++ w) ++ drop k room)) e in
      let moved : length front + 8 ≡ length (front ++ w) =
        omega (arith, e, length-append front w) in
      let d' = record d { hw = some mem } in
      fpga2host_step m (length ws) (front ++ room) (length front) offset (offset + 8) (of_bytes w)
        (some mem) ((front ++ w) ++ drop 8 room) d read stored
        (next_offset start delta v handle emulate offset (omega arith))
      ∙ ap (λ k. fpga2host_loop m (length ws) (offset + 8) ((front ++ w) ++ drop 8 room) k d') moved
      ∙ fpga2host_loop-words a ws (offset + 8) (done ++ w) rest (front ++ w) (drop 8 room) d' oks hd
          (ap some behind) (subst-IsBytes behind valid) (omega (arith, l, e, length-append done w))
          (omega arith) (omega arith) (omega (arith, r, length-drop 8 room))
      ∙ (λ i. some (
        append_assoc front w (concat ws) i
            ++ (drop-drop (8 * length ws) 8 room
                  ∙ ap (λ k. drop k room) {x = 8 + 8 * length ws} {y = 8 * suc (length ws)}
                      (omega arith))
                i,
        record d { hw = sym here i },
      ))

-- The two copies of the driver over the accesses of a mapped device, one access or two halves to a
-- word, on plain memory of bytes behind whose start the registers lie. Let whole words of eight
-- bytes be as many as the transfers for the length, let the host buffers and the memory behind the
-- offset have room for them, and let the offset stay below 2^31 and the addresses below 2^64. Then
-- memcpy64_host2fpga succeeds and puts exactly the bytes of the words at the offset, and
-- memcpy64_fpga2host brings them back to the head of another host buffer, whose rest stays, and
-- changes nothing.
pub memcpy64_fpga2host-memcpy64_host2fpga :
    (start delta : ℕ) (v : InterfaceVec) (handle : ℤ) (emulate : Bool) (ws : List (List ℕ))
    (offset len : ℕ) (rest front room host : List ℕ) (d : Device (Option (List ℕ)))
    → fpga_uio_get_base_address v handle ≡ some (start + delta)
    → d.drv.mmio_handle ≡ handle
    → d.hw ≡ some (front ++ room)
    → length front ≡ delta + offset
    → IsBytes (front ++ room)
    → AreWords ws
    → transfers len ≡ length ws
    → 8 * length ws ≤ length room
    → 8 * length ws ≤ length host
    → offset + 8 * length ws < 2 ^ 31
    → start + delta + offset + 8 * length ws < 2 ^ 64
    → (d' : Device (Option (List ℕ))) × (memcpy64_host2fpga
          (uio_mmio (ram start) v emulate)
          (concat ws ++ rest)
          offset
          len
          d
        ≡ some (tt, d'))
      × (d'.hw ≡ some ((front ++ concat ws) ++ drop (8 * length ws) room))
      × (memcpy64_fpga2host (uio_mmio (ram start) v emulate) offset host len d'
          ≡ some (concat ws ++ drop (8 * length ws) host, d'))
unfolding memcpy64_host2fpga memcpy64_fpga2host At
memcpy64_fpga2host-memcpy64_host2fpga start delta v handle emulate ws offset len rest front room
      host d a hd hw l p ok t r1 r2 small high =
    let m = uio_mmio (ram start) v emulate in
    let back = drop (8 * length ws) room in
    let here : u32 offset ≡ offset = omega arith in
    let d' = record d { hw = some ((front ++ concat ws) ++ back) } in
    let valid : IsBytes (front ++ (concat ws ++ back)) =
      append-IsBytes front (concat ws ++ back) (left-IsBytes front room p) (
        append-IsBytes (concat ws) back (concat-IsBytes ws ok)
          (drop-IsBytes (8 * length ws) room (right-IsBytes front room p))) in
    (
      d',
      (λ i. host2fpga_loop m (t i) (concat ws ++ rest) 0 (here i) d)
          ∙ host2fpga_loop-words start delta v handle emulate a ws offset [] rest front room d ok hd
              hw l small high r1,
      refl,
      (λ i. fpga2host_loop m (t i) (here i) host 0 d')
          ∙ fpga2host_loop-words start delta v handle emulate a ws offset front back [] host d' ok
              hd (ap some (append_assoc front (concat ws) back)) valid l small high r2,
    )
