-- ===== src/Server/H2t/Pieces.antt =====
-- A piece of a payload from a stream socket to plain memory: socket_recv_accumulate_h2t_data of
-- streaming/src/intel_st_debug_if_sockets.c on a connection that stays up.
use remote_debug_for_intel_f.Prelude.{
  ℕ, ◌+◌, ◌^◌, ◌≤◌, ◌<◌, ◌≡◌, refl, sym, ap, ◌∙◌, Bool, List, ◌++◌, Option, some, arith, ◌>>=◌,
  ◌>>◌, take, drop, length, length-append, length-take, length-drop, take-append-drop,
}
use remote_debug_for_intel_f.Prelude.Int.{ℤ}
use remote_debug_for_intel_f.Mmio.{Mmio}
use remote_debug_for_intel_f.Os.{Os, IsStream}
use remote_debug_for_intel_f.Driver.{Device}
use remote_debug_for_intel_f.Sockets.{ReturnCode, ok, socket_recv_accumulate}
use remote_debug_for_intel_f.Sockets.Recv.Open.{StaysOpen, socket_recv_accumulate-GotAll}
use remote_debug_for_intel_f.Driver.Copy.{memcpy64_host2fpga}
use remote_debug_for_intel_f.Server.{World, on_os, on_dev}
use remote_debug_for_intel_f.Server.Wrap.Around.{take_front}
use remote_debug_for_intel_f.Server.H2t.{socket_recv_accumulate_h2t_data}
use remote_debug_for_intel_f.Interfaces.{InterfaceVec}
use remote_debug_for_intel_f.Uio.Access.{ram, uio_mmio}
use remote_debug_for_intel_f.Uio.Access.Bytes.{IsBytes, append-IsBytes, take-IsBytes, drop-IsBytes}
use remote_debug_for_intel_f.Uio.Access.Pieces.{Holds, Reaches, moved, moved_most, put_back}

module _ {N X : Type 0} (os : Os N) (m : Mmio X) (fd : ℤ) where
  recv_copied :
      (w : World N X) (host host' : List ℕ) (a n flags : ℕ) (k : ℤ) (s' : N) (d : Device X)
      → socket_recv_accumulate os fd host n flags w.os ≡ some ((ok, k, host'), s')
      → memcpy64_host2fpga m host' a n w.dev ≡ some (tt, d)
      → socket_recv_accumulate_h2t_data os m fd a n flags (record w { recv_buff = some host })
        ≡ some (ok, record w { recv_buff = some host'; os = s'; dev = d })
  unfolding socket_recv_accumulate_h2t_data
  recv_copied w host host' a n flags k s' d got put = rw (got, put, ◌>>=◌, ◌>>◌, on_os, on_dev) refl

module _ {N : Type 0} {os : Os N} (st : IsStream os) (start delta : ℕ) (v : InterfaceVec)
    (handle : ℤ) (emulate : Bool) (fd : ℤ) (flags : ℕ) (up : StaysOpen st fd) where
  -- The next `n` bytes of the stream, and what stood behind them in the receive buffer up to a whole
  -- word, are in the memory behind its first `delta + a` bytes.
  pub record Received (w : World N (Option (List ℕ))) (mem : List ℕ) (size a n : ℕ)
      (out : Option (ReturnCode × World N (Option (List ℕ)))) : Type 0 where
    pub host : List ℕ
    pub s' : N
    pub size_kept : length host ≡ size
    pub bytes : IsBytes host
    pub next : take n host ≡ take n (st.pending fd w.os)
    pub rest : st.pending fd s' ≡ drop n (st.pending fd w.os)
    pub returns :
        out
        ≡ some (
          ok,
          record w {
            recv_buff = some host;
            os = s';
            dev = record (w.dev) {
              hw =
                  some (
                    (take (delta + a) mem ++ take (moved n) host)
                    ++ drop (delta + a + moved n) mem);
            };
          },
        )

  pub socket_recv_accumulate_h2t_data-Received :
      (w : World N (Option (List ℕ))) (mem host : List ℕ) (a n : ℕ)
      → Holds start delta v handle emulate w.dev mem
      → Reaches start delta v handle emulate mem a n
      → w.recv_buff ≡ some host
      → moved n ≤ length host
      → n < 2 ^ 63
      → IsBytes host
      → IsBytes (st.pending fd w.os)
      → n ≤ length (st.pending fd w.os)
      → Received w mem
          (length host)
          a
          n
          (socket_recv_accumulate_h2t_data os (uio_mmio (ram start) v emulate) fd a n flags w)
  socket_recv_accumulate_h2t_data-Received w mem host a n holds reach buffer room small pb qb
        enough =
      let m = uio_mmio (ram start) v emulate in
      let most = moved_most n small in
      let q = st.pending fd w.os in
      let got =
        socket_recv_accumulate-GotAll st fd flags up n host w.os (omega (arith, most, room))
          (omega arith) enough in
      let host' = take n q ++ drop n host in
      let l : length host' ≡ length host = omega (
        arith,
        most,
        room,
        enough,
        length-append (take n q) (drop n host),
        length-take n q,
        length-drop n host,
      ) in
      let b : IsBytes host' =
        append-IsBytes (take n q) (drop n host) (take-IsBytes n q qb) (drop-IsBytes n host pb) in
      let put =
        put_back start delta v handle emulate w.dev mem host' a n holds reach
          (omega (arith, l, room)) (take-IsBytes (moved n) host' b) in
      record {
        host = host';
        s' = got.s';
        size_kept = l;
        bytes = b;
        next =
            take_front n (take n q) (drop n host) (omega (arith, enough, length-take n q))
            ∙ sym (take_front n (take n q) (drop n q) (omega (arith, enough, length-take n q)))
            ∙ ap (take n) (take-append-drop n q);
        rest = got.rest;
        returns =
            (λ i.
              socket_recv_accumulate_h2t_data os m fd a n flags (record w { recv_buff = buffer i }))
            ∙ recv_copied os m fd w host host' a n flags got.count got.s' _ got.returns put;
      }
