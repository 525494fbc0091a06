-- ===== src/Uio/Access/Pieces.antt =====
-- memcpy64_fpga2host and memcpy64_host2fpga of streaming/src/intel_st_debug_if_st_dbg_ip_driver.c on a
-- piece of plain memory whose length need not be a multiple of eight.
use remote_debug_for_intel_f.Prelude.{
  ℕ, zero, suc, ◌+◌, ◌*◌, ◌^◌, ◌≤◌, ◌<◌, Bool, List, [], ◌∷◌, ◌++◌, Option, some, ◌≡◌, refl, sym,
  ap, ◌∙◌, arith, u32, take, drop, length, length-take, length-drop, take-append-drop, take-take,
  drop-drop,
}
use remote_debug_for_intel_f.Prelude.Int.{ℤ}
use remote_debug_for_intel_f.Driver.{Device}
use remote_debug_for_intel_f.Driver.Copy.{
  memcpy64_fpga2host, fpga2host_loop, memcpy64_host2fpga, host2fpga_loop, transfers,
}
use remote_debug_for_intel_f.Interfaces.{InterfaceVec}
use remote_debug_for_intel_f.Uio.Access.{ram, uio_mmio}
use remote_debug_for_intel_f.Uio.Access.Bytes.{IsBytes, take-IsBytes, drop-IsBytes}
use remote_debug_for_intel_f.Uio.Access.Words.{AreWords, concat, subst-IsBytes, At}
use remote_debug_for_intel_f.Uio.Access.Copy.{fpga2host_loop-words, host2fpga_loop-words}

-- The first `n` words of eight bytes.
abbrev words : ℕ → List ℕ → List (List ℕ)
words zero bs = []
words (suc n) bs = take 8 bs ∷ words n (drop 8 bs)

length-words : (n : ℕ) (bs : List ℕ) → length (words n bs) ≡ n
length-words zero bs = refl
length-words (suc n) bs = ap suc (length-words n (drop 8 bs))

words-AreWords : (n : ℕ) (bs : List ℕ) → 8 * n ≤ length bs → IsBytes bs → AreWords (words n bs)
unfolding AreWords
words-AreWords zero bs h p = tt
words-AreWords (suc n) bs h p = (
  omega (arith, length-take 8 bs),
  take-IsBytes 8 bs p,
  words-AreWords n (drop 8 bs) (omega (arith, length-drop 8 bs)) (drop-IsBytes 8 bs p),
)

concat-words : (n : ℕ) (bs : List ℕ) → concat (words n bs) ≡ take (8 * n) bs
concat-words zero bs = refl
concat-words (suc n) bs =
    ap (λ t. take 8 bs ++ t) (concat-words n (drop 8 bs))
    ∙ take-take (8 * n) 8 bs
    ∙ ap (λ k. take k bs) {x = 8 + 8 * n} {y = 8 * suc n} (omega arith)

take_once : (n : ℕ) (xs : List ℕ) → take n (take n xs) ≡ take n xs
take_once zero xs = refl
take_once (suc n) [] = refl
take_once (suc n) (x ∷ xs) = ap (λ t. x ∷ t) (take_once n xs)

-- The bytes that a copy of `n` bytes moves: whole words.
abbrev pub moved : ℕ → ℕ
moved n = 8 * transfers n

pub moved_most : (n : ℕ) → n < 2 ^ 63 → (n ≤ moved n) × (moved n ≤ n + 7)
moved_most n h = (omega arith, omega arith)

-- Three pieces of a list.
pub in_three : (i n : ℕ) (xs : List ℕ) → xs ≡ take i xs ++ (take n (drop i xs) ++ drop (i + n) xs)
in_three i n xs =
    sym (take-append-drop i xs)
    ∙ ap (λ t. take i xs ++ t)
        (sym (take-append-drop n (drop i xs))
          ∙ ap (λ t. take n (drop i xs) ++ t) (drop-drop n i xs))

module _ (start delta : ℕ) (v : InterfaceVec) (handle : ℤ) (emulate : Bool) where
  -- The device has the memory `mem` behind the handle of its driver.
  pub record Holds (d : Device (Option (List ℕ))) (mem : List ℕ) : Type 0 where
    pub mapped : At start delta v handle emulate
    pub here : d.drv.mmio_handle ≡ handle
    pub holds : d.hw ≡ some mem
    pub bytes : IsBytes mem
    pub top : start + length mem < 2 ^ 64

  -- The whole words of a piece of `n` bytes at the offset `a` lie in the memory.
  abbrev pub Reaches : (mem : List ℕ) (a n : ℕ) → Type 0
  Reaches mem a n = (delta + a + moved n ≤ length mem) × (a + moved n < 2 ^ 31)

  -- A copy to the host takes the words of the piece and nothing else, and changes no memory.
  pub fetch :
      (d : Device (Option (List ℕ))) (mem host : List ℕ) (a n : ℕ)
      → Holds d mem
      → Reaches mem a n
      → moved n ≤ length host
      → memcpy64_fpga2host (uio_mmio (ram start) v emulate) a host n d
        ≡ some (take (moved n) (drop (delta + a) mem) ++ drop (moved n) host, d)
  unfolding memcpy64_fpga2host
  fetch d mem host a n w r room =
      let m = uio_mmio (ram start) v emulate in
      let k = transfers n in
      let rest = drop (delta + a) mem in
      let ws = words k rest in
      let l : length ws ≡ k = length-words k rest in
      let bytes = drop-IsBytes (delta + a) mem w.bytes in
      let fits : 8 * k ≤ length rest = omega (arith, r.0, length-drop (delta + a) mem) in
      let all : concat ws ≡ take (8 * k) rest = concat-words k rest in
      let split : mem ≡ take (delta + a) mem ++ (concat ws ++ drop (delta + a + 8 * k) mem) =
        in_three (delta + a) (8 * k) mem
        ∙ ap (λ t. take (delta + a) mem ++ (t ++ drop (delta + a + 8 * k) mem)) (sym all) in
      let small : u32 a ≡ a = omega (arith, r.1) in
      (λ i. fpga2host_loop m (sym l i) (small i) host 0 d)
      ∙ fpga2host_loop-words start delta v handle emulate w.mapped ws a (take (delta + a) mem)
          (drop (delta + a + 8 * k) mem) [] host d (words-AreWords k rest fits bytes) w.here
          (w.holds ∙ ap some split) (subst-IsBytes split w.bytes)
          (omega (arith, r.0, length-take (delta + a) mem)) (omega (arith, l, r.1))
          (omega (arith, l, r.0, w.top)) (omega (arith, l))
      ∙ (λ i. some (all i ++ drop (8 * l i) host, d))

  -- A copy from the host replaces the words of the piece and nothing else.
  pub put_back :
      (d : Device (Option (List ℕ))) (mem host : List ℕ) (a n : ℕ)
      → Holds d mem
      → Reaches mem a n
      → moved n ≤ length host
      → IsBytes (take (moved n) host)
      → memcpy64_host2fpga (uio_mmio (ram start) v emulate) host a n d
        ≡ some (
          tt,
          record d {
            hw =
                some
                  ((take (delta + a) mem ++ take (moved n) host) ++ drop (delta + a + moved n) mem);
          },
        )
  unfolding memcpy64_host2fpga
  put_back d mem host a n w r room p =
      let m = uio_mmio (ram start) v emulate in
      let k = transfers n in
      let ws = words k (take (8 * k) host) in
      let l : length ws ≡ k = length-words k (take (8 * k) host) in
      let fits : 8 * k ≤ length (take (8 * k) host) =
        omega (arith, room, length-take (8 * k) host) in
      let once : take (8 * k) (take (8 * k) host) ≡ take (8 * k) host = take_once (8 * k) host in
      let all : concat ws ≡ take (8 * k) host = concat-words k (take (8 * k) host) ∙ once in
      let split : host ≡ concat ws ++ drop (8 * k) host =
        sym (take-append-drop (8 * k) host) ∙ ap (λ t. t ++ drop (8 * k) host) (sym all) in
      let small : u32 a ≡ a = omega (arith, r.1) in
      (λ i. host2fpga_loop m (sym l i) (split i) 0 (small i) d)
      ∙ host2fpga_loop-words start delta v handle emulate w.mapped ws a [] (drop (8 * k) host)
          (take (delta + a) mem) (drop (delta + a) mem) d
          (words-AreWords k (take (8 * k) host) fits p) w.here
          (w.holds ∙ ap some (sym (take-append-drop (delta + a) mem)))
          (omega (arith, r.0, length-take (delta + a) mem)) (omega (arith, l, r.1))
          (omega (arith, l, r.0, w.top)) (omega (arith, l, r.0, length-drop (delta + a) mem))
      ∙ (λ i. some (
        tt,
        record d {
          hw = some (
              (take (delta + a) mem ++ all i)
              ++ (ap (λ j. drop (8 * j) (drop (delta + a) mem)) l
                    ∙ drop-drop (8 * k) (delta + a) mem)
                  i);
        },
      ))
