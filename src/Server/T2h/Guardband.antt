-- ===== src/Server/T2h/Guardband.antt =====
-- The header buffers of streaming/src/intel_st_debug_if_server.c that are filled once with a guard band and
-- then once a frame with a packet header behind it.
use remote_debug_for_intel_f.Prelude.{
  ℕ, nil_of, ◌≡◌, refl, sym, ap, ◌∙◌, List, [], ◌++◌, some, arith, take, drop, length, blit,
  length-drop, take-append-drop, blit_behind, append-nil,
}
use remote_debug_for_intel_f.Packet.{packet_guardband, sizeof_packet_guardband}
use remote_debug_for_intel_f.Server.H2t.{header_bytes}

-- The buffer holds a guard band and room for one packet header.
pub record HasGuardband (bytes : List ℕ) : Type 0 where
  pub size : length bytes ≡ header_bytes
  pub guard : take sizeof_packet_guardband bytes ≡ packet_guardband

-- A buffer behind whose guard band six bytes are written.
pub blit-HasGuardband :
    (bytes header : List ℕ)
    → HasGuardband bytes
    → length header ≡ 6
    → blit bytes sizeof_packet_guardband header ≡ some (packet_guardband ++ header)
blit-HasGuardband bytes header g l =
    let split : bytes ≡ packet_guardband ++ drop 4 bytes =
      sym (take-append-drop 4 bytes) ∙ ap (λ t. t ++ drop 4 bytes) g.guard in
    let rest : length (drop 4 bytes) ≡ 6 = omega (arith, g.size, length-drop 4 bytes) in
    let none_left : drop 6 (drop 4 bytes) ≡ [] =
      nil_of (drop 6 (drop 4 bytes)) (omega (arith, rest, length-drop 6 (drop 4 bytes))) in
    (λ i. blit (split i) 4 header)
    ∙ blit_behind packet_guardband (drop 4 bytes) header (omega (arith, rest, l))
    ∙ (λ i. some ((packet_guardband ++ header) ++ drop (l i) (drop 4 bytes)))
    ∙ (λ i. some ((packet_guardband ++ header) ++ none_left i))
    ∙ ap some (append-nil (packet_guardband ++ header))

pub framed-HasGuardband :
    (header : List ℕ) → length header ≡ 6 → HasGuardband (packet_guardband ++ header)
framed-HasGuardband header l = record { size = omega (arith, l); guard = refl }
