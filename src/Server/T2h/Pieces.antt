-- ===== src/Server/T2h/Pieces.antt =====
-- The payload of a frame, from plain memory to a stream socket: socket_send_all_t2h_data of
-- streaming/src/intel_st_debug_if_sockets.c and the two pieces of process_t2h_data.
use remote_debug_for_intel_f.Prelude.{
  ℕ, drop-append_all, subst, ◌+◌, ◌^◌, ◌≤◌, ◌<◌, ◌≡◌, refl, sym, ap, ◌∙◌, inl, inr, Bool, true,
  false, Bool-cases, take-append_left, Run, pure, if◌then◌else◌, List, ◌++◌, Option, some, arith,
  ◌>>=◌, ◌>>◌, take, drop, length, length-append, length-take, length-drop, take-append-drop,
}
use remote_debug_for_intel_f.Prelude.Int.{ℤ}
use remote_debug_for_intel_f.Mmio.{Mmio}
use remote_debug_for_intel_f.Os.{Os, IsStream}
use remote_debug_for_intel_f.Sockets.{ReturnCode, ok, failure, init_err, other, socket_send_all}
use remote_debug_for_intel_f.Sockets.Send.{Sends, Sends-step, socket_send_all_lem}
use remote_debug_for_intel_f.Driver.Copy.{memcpy64_fpga2host}
use remote_debug_for_intel_f.Server.{World, on_os, on_dev}
use remote_debug_for_intel_f.Server.Wrap.Around.{take_front}
use remote_debug_for_intel_f.Server.H2t.{is_ok, socket_send_all_t2h_data}
use remote_debug_for_intel_f.Interfaces.{InterfaceVec}
use remote_debug_for_intel_f.Uio.Access.{ram, uio_mmio}
use remote_debug_for_intel_f.Uio.Access.Pieces.{Holds, Reaches, moved, moved_most, fetch}

module _ {N : Type 0} {os : Os N} (st : IsStream os) (fd : ℤ) (flags : ℕ) where
  -- What ends early with the first of two pieces ends early with both.
  pub Sends-more :
      (rc : ReturnCode) (s : N) (bs more : List ℕ) (s' : N)
      → is_ok rc ≡ false
      → Sends st fd flags rc s bs s'
      → Sends st fd flags rc s (bs ++ more) s'
  Sends-more ok s bs more s' e r = absurd (cc e)
  Sends-more failure s bs more s' e (t, k, h, r, refused) = (
    t,
    k,
    omega (arith, length-append bs more),
    r ∙ ap (λ l. st.sent fd s ++ l) (sym (take_front k bs more (omega arith))),
    refused,
  )
  Sends-more init_err s bs more s' e r = r
  Sends-more (other k) s bs more s' e r = r

  pub Sends-both :
      (rc rc' : ReturnCode) (s s' : N) (bs more : List ℕ) (s'' : N)
      → is_ok rc ≡ true
      → Sends st fd flags rc s bs s'
      → Sends st fd flags rc' s' more s''
      → Sends st fd flags rc' s (bs ++ more) s''
  Sends-both ok rc' s s' bs more s'' e one two =
      let behind : drop (length bs) (bs ++ more) ≡ more = drop-append_all bs more in
      Sends-step st fd flags rc' s s' (length bs) (bs ++ more) s''
        (omega (arith, length-append bs more)) (rw (take-append_left bs more) one) (rw behind two)
  Sends-both failure rc' s s' bs more s'' e one two = absurd (cc e)
  Sends-both init_err rc' s s' bs more s'' e one two = absurd one
  Sends-both (other k) rc' s s' bs more s'' e one two = absurd one

module _ {N X : Type 0} {os : Os N} (st : IsStream os) (fd : ℤ) (flags : ℕ) where
  -- What sending `bs` does to a world: the bytes in the send buffer and the system change only.
  pub record Sending (size : ℕ) (w : World N X) (bs : List ℕ)
      (out : Option (ReturnCode × World N X)) : Type 0 where
    pub rc : ReturnCode
    pub host : List ℕ
    pub s' : N
    pub returns : out ≡ some (rc, record w { send_buff = some host; os = s' })
    pub size_kept : length host ≡ size
    pub sends : Sends st fd flags rc w.os bs s'

  -- Two pieces, one behind the other: the second is only sent when all of the first was.
  pub Sending-both :
      (g f : Run (World N X) ReturnCode) {size : ℕ} {w : World N X} {bs more : List ℕ}
      → Sending size w bs (g w)
      → ((w' : World N X) (host : List ℕ)
          → w'.dev ≡ w.dev
          → w'.send_buff ≡ some host
          → length host ≡ size
          → Sending size w' more (f w'))
      → Sending size w (bs ++ more) ((do rc ← g; if is_ok rc then f else pure rc) w)
  Sending-both g f {w = w} {bs = bs} {more = more} one two = elim (Bool-cases (is_ok (one.rc))) [
    | inl yes_ok ↦
        let w' = record w { send_buff = some (one.host); os = one.s' } in
        let next = two w' one.host refl refl one.size_kept in
        record {
          rc = next.rc;
          host = next.host;
          s' = next.s';
          returns = rw (one.returns, ◌>>=◌, yes_ok) next.returns;
          size_kept = next.size_kept;
          sends =
              Sends-both st fd flags one.rc next.rc w.os one.s' bs more next.s' yes_ok one.sends
                next.sends;
        }
    | inr not_ok ↦ record {
      rc = one.rc;
      host = one.host;
      s' = one.s';
      returns = rw (one.returns, ◌>>=◌, not_ok) refl;
      size_kept = one.size_kept;
      sends = Sends-more st fd flags one.rc w.os bs more one.s' not_ok one.sends;
    }
  ]

module _ {N : Type 0} {os : Os N} (st : IsStream os) (start delta : ℕ) (v : InterfaceVec)
    (handle : ℤ) (emulate : Bool) (fd : ℤ) (flags : ℕ) where
  abbrev m : Mmio (Option (List ℕ))
  m = uio_mmio (ram start) v emulate

  send_fetched :
      (w : World N (Option (List ℕ))) (host host' : List ℕ) (a n : ℕ) (rc : ReturnCode) (k : ℤ)
      (s' : N)
      → memcpy64_fpga2host m a host n w.dev ≡ some (host', w.dev)
      → socket_send_all os fd host' n flags w.os ≡ some ((rc, k), s')
      → socket_send_all_t2h_data os m fd a n flags (record w { send_buff = some host })
        ≡ some (rc, record w { send_buff = some host'; os = s' })
  unfolding socket_send_all_t2h_data
  send_fetched w host host' a n rc k s' got sent = rw (got, sent, ◌>>=◌, ◌>>◌, on_os, on_dev) refl

  -- One piece of `n` bytes at `a`, where the send buffer has room for whole words.
  pub socket_send_all_t2h_data_lem :
      (w : World N (Option (List ℕ))) (mem host : List ℕ) (a n : ℕ)
      → Holds start delta v handle emulate w.dev mem
      → Reaches start delta v handle emulate mem a n
      → w.send_buff ≡ some host
      → moved n ≤ length host
      → n < 2 ^ 63
      → Sending st fd flags
          (length host)
          w
          (take n (drop (delta + a) mem))
          (socket_send_all_t2h_data os m fd a n flags w)
  socket_send_all_t2h_data_lem w mem host a n holds reach buffer room small =
      let most = moved_most n small in
      let piece = take (moved n) (drop (delta + a) mem) in
      let host' = piece ++ drop (moved n) host in
      let l : length piece ≡ moved n = omega (
        arith,
        reach.0,
        length-take (moved n) (drop (delta + a) mem),
        length-drop (delta + a) mem,
      ) in
      let l' : length host' ≡ length host =
        omega (arith, l, length-append piece (drop (moved n) host), length-drop (moved n) host) in
      let sent =
        socket_send_all_lem st fd flags host' n w.os (omega (arith, l', most)) (omega arith) in
      let rest = drop (delta + a) mem in
      let same : take n host' ≡ take n rest =
        take_front n piece (drop (moved n) host) (omega (arith, l, most))
        ∙ sym (take_front n piece (drop (moved n) rest) (omega (arith, l, most)))
        ∙ ap (take n) (take-append-drop (moved n) rest) in
      let got = fetch start delta v handle emulate w.dev mem host a n holds reach room in
      record {
        rc = sent.rc;
        host = host';
        s' = sent.s';
        returns =
            (λ i. socket_send_all_t2h_data os m fd a n flags (record w { send_buff = buffer i }))
            ∙ send_fetched w host host' a n sent.rc sent.count sent.s' got sent.returns;
        size_kept = l';
        sends = subst (λ t. Sends st fd flags sent.rc w.os t sent.s') same sent.sends;
      }
