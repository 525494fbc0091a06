-- ===== src/Uio/Access/Ram.antt =====
-- Plain memory as a bus: loads and stores of eight bytes and of their two halves.
use remote_debug_for_intel_f.Prelude.{
  ℕ, ◌+◌, ◌-◌, ◌^◌, ◌≤◌, ◌<◌, false, List, ◌++◌, none, some, ◌≡◌, refl, sym, ap, ◌∙◌, arith, bit_or,
  u32, shl, shr, leb, if◌then◌else◌, take, drop, length, blit, of_bytes, to_bytes, ◌>>=◌, ◌>>◌,
  pure, le→leb, le→ltb, length-append, length-take, length-drop, drop-drop, inl, inr, leb→le,
  Bool-cases, Option-cases,
}
use remote_debug_for_intel_f.Uio.Access.{ram_load, ram_store}
use remote_debug_for_intel_f.Uio.Access.Bytes.{
  IsBytes, drop-IsBytes, halves, to_bytes_halves, of_bytes-to_bytes, length-to_bytes,
  append-IsBytes, take-IsBytes, to_bytes-IsBytes, load_stored, blit-append,
}

-- The loads of plain memory behind its start.
pub load_at :
    (start n at : ℕ) (bytes : List ℕ)
    → ram_load start n (start + at) bytes ≡ (
        if leb (at + n) (length bytes)
        then some (of_bytes (take n (drop at bytes)), bytes)
        else none)
unfolding ram_load
load_at start n at bytes =
    let e : start + at - start ≡ at = omega arith in
    rw (le→ltb (start + at) start (omega arith), e)
      (elim (Bool-cases (leb (at + n) (length bytes))) [ inl h ↦ rw h | inr h ↦ rw h ])

pub load_halves :
    (start at : ℕ) (bytes : List ℕ)
    → IsBytes bytes
    → (ram_load start 4 (start + at) >>= λ low.
          ram_load start 4 (start + (at + 4)) >>= λ high. pure (bit_or low (shl high 32)))
        bytes
      ≡ ram_load start 8 (start + at) bytes
load_halves start at bytes h = elim (Bool-cases (leb (at + 8) (length bytes))) [
  | inl fits ↦
      let room = leb→le (at + 8) (length bytes) fits in
      rw (load_at start 8 at bytes, fits)
        (rw (load_at start 4 at bytes, le→leb (at + 4) (length bytes) (omega arith), ◌>>=◌)
          (rw
            (
              load_at start 4 (at + 4) bytes,
              le→leb (at + 4 + 4) (length bytes) (omega arith),
              ◌>>=◌,
            )
            (ap (λ w. some (w, bytes))
              (ap (λ l. bit_or (of_bytes (take 4 (drop at bytes))) (shl (of_bytes (take 4 l)) 32))
                  (sym (drop-drop 4 at bytes))
                ∙ halves (drop at bytes) (drop-IsBytes at bytes h)
                    (omega (arith, length-drop at bytes))))))
  | inr short ↦
      rw (load_at start 8 at bytes, short)
        (let past : leb (at + 4 + 4) (length bytes) ≡ false =
            ap (λ k. leb k (length bytes)) {x = at + 4 + 4} {y = at + 8} (omega arith) ∙ short in
          elim (Bool-cases (leb (at + 4) (length bytes))) [
            | inl first ↦
                rw (load_at start 4 at bytes, first, ◌>>=◌)
                  (rw (load_at start 4 (at + 4) bytes, past, ◌>>=◌) refl)
            | inr first ↦ rw (load_at start 4 at bytes, first, ◌>>=◌) refl
          ])
]

-- The stores to plain memory behind its start.
pub store_at :
    (start n at value : ℕ) (bytes : List ℕ)
    → ram_store start n (start + at) value bytes
      ≡ (elim (blit bytes at (to_bytes n value)) [ none ↦ none | some bytes' ↦ some (tt, bytes') ])
unfolding ram_store
store_at start n at value bytes =
    let e : start + at - start ≡ at = omega arith in
    rw (le→ltb (start + at) start (omega arith), e) refl

pub store_halves :
    (start at value : ℕ) (bytes : List ℕ)
    → (ram_store start 4 (start + at) (u32 value)
          >> ram_store start 4 (start + (at + 4)) (u32 (shr value 32)))
        bytes
      ≡ ram_store start 8 (start + at) value bytes
unfolding to_bytes
store_halves start at value bytes =
    let low = to_bytes 4 (u32 value) in
    let high = to_bytes 4 (u32 (shr value 32)) in
    let whole : blit bytes at (to_bytes 8 value)
        ≡ (elim (blit bytes at low) [ none ↦ none | some b ↦ blit b (at + 4) high ]) =
      ap (blit bytes at) (to_bytes_halves value) ∙ sym (blit-append bytes at low high) in
    rw (store_at start 8 at value bytes, whole)
      (elim (Option-cases (blit bytes at low)) [
        | inl e ↦ rw (store_at start 4 at (u32 value) bytes, e, ◌>>◌, ◌>>=◌) refl
        | inr (b, e) ↦
            rw (store_at start 4 at (u32 value) bytes, e, ◌>>◌, ◌>>=◌)
              (rw (store_at start 4 (at + 4) (u32 (shr value 32)) b) refl)
      ])

pub store_load :
    (start n at value : ℕ) (bytes : List ℕ)
    → IsBytes bytes
    → at + n ≤ length bytes
    → value < 256 ^ n
    → (bytes' : List ℕ) × (ram_store start n (start + at) value bytes ≡ some (tt, bytes'))
      × (ram_load start n (start + at) bytes' ≡ some (value, bytes'))
      × IsBytes bytes'
store_load start n at value bytes h room small =
    let l = length-to_bytes n value in
    (
      take at bytes ++ to_bytes n value ++ drop (at + n) bytes,
      store_at start n at value bytes ∙ rw (l, le→leb (at + n) (length bytes) room) refl,
      load_at start n at (take at bytes ++ to_bytes n value ++ drop (at + n) bytes)
          ∙ rw
              (
                le→leb (at + n) (length (take at bytes ++ to_bytes n value ++ drop (at + n) bytes))
                    (omega (
                      arith,
                      length-append (take at bytes ++ to_bytes n value) (drop (at + n) bytes),
                      length-append (take at bytes) (to_bytes n value),
                      length-take at bytes,
                      length-drop (at + n) bytes,
                    )),
                load_stored n at value bytes room,
                of_bytes-to_bytes n value small,
              )
              refl,
      append-IsBytes (take at bytes ++ to_bytes n value) (drop (at + n) bytes)
          (append-IsBytes (take at bytes) (to_bytes n value) (take-IsBytes at bytes h)
            (to_bytes-IsBytes n value))
          (drop-IsBytes (at + n) bytes h),
    )
