-- ===== src/Sockets/Tests.antt =====
-- The two loops over a stream that moves a few bytes at a time.
use remote_debug_for_intel_f.Prelude.{ℕ, ◌≡◌, refl, List, [], ◌∷◌, some, arith, take}
use remote_debug_for_intel_f.Prelude.Int.{pos}
use remote_debug_for_intel_f.Os.Wire.{Wire, wire, wire-IsStream}
use remote_debug_for_intel_f.Sockets.{
  ok, send_loop, recv_loop, null_loop, socket_send_all, socket_recv_accumulate,
  socket_recv_until_null_reached,
}
use remote_debug_for_intel_f.Sockets.UntilNull.{ReceivedText, socket_recv_until_null_reached_lem}
use remote_debug_for_intel_f.Sockets.Send.{Sent, socket_send_all_lem}
use remote_debug_for_intel_f.Sockets.Recv.{Accumulated, socket_recv_accumulate_lem}

abbrev five : Wire
five = record { incoming = 1 ∷ 2 ∷ 3 ∷ 4 ∷ 5 ∷ []; outgoing = 9 ∷ [] }

abbrev room : List ℕ
room = 0 ∷ 0 ∷ 0 ∷ 0 ∷ 7 ∷ []

receives :
    socket_recv_accumulate wire (pos 4) room 4 0 five
    ≡ some ((ok, pos 4, 1 ∷ 2 ∷ 3 ∷ 4 ∷ 7 ∷ []), record { incoming = 5 ∷ []; outgoing = 9 ∷ [] })
unfolding socket_recv_accumulate recv_loop
receives = refl

sends :
    socket_send_all wire (pos 4) (6 ∷ 7 ∷ 8 ∷ []) 3 0 five
    ≡ some
        ((ok, pos 3), record { incoming = 1 ∷ 2 ∷ 3 ∷ 4 ∷ 5 ∷ []; outgoing = 9 ∷ 6 ∷ 7 ∷ 8 ∷ [] })
unfolding socket_send_all send_loop
sends = refl

-- The byte 5 behind the NUL comes with it and is not left on the stream.
takes_more :
    socket_recv_until_null_reached wire
      (pos 4)
      (8 ∷ 8 ∷ 8 ∷ 8 ∷ [])
      4
      0
      (record { incoming = 1 ∷ 0 ∷ 5 ∷ 6 ∷ []; outgoing = [] })
    ≡ some ((ok, pos 3, 1 ∷ 0 ∷ 5 ∷ 8 ∷ []), record { incoming = 6 ∷ []; outgoing = [] })
unfolding socket_recv_until_null_reached null_loop
takes_more = refl

socket_recv_accumulate_lem_example :
    Accumulated wire-IsStream
      (pos 4)
      0
      4
      five
      []
      room
      (socket_recv_accumulate wire (pos 4) room 4 0 five)
socket_recv_accumulate_lem_example =
    socket_recv_accumulate_lem wire-IsStream (pos 4) 0 4 room five (omega arith) (omega arith)

socket_send_all_lem_example :
    Sent wire-IsStream
      (pos 4)
      0
      five
      (take 3 (6 ∷ 7 ∷ 8 ∷ []))
      (socket_send_all wire (pos 4) (6 ∷ 7 ∷ 8 ∷ []) 3 0 five)
socket_send_all_lem_example =
    socket_send_all_lem wire-IsStream (pos 4) 0 (6 ∷ 7 ∷ 8 ∷ []) 3 five (omega arith) (omega arith)

socket_recv_until_null_reached_lem_example :
    ReceivedText wire-IsStream
      (pos 4)
      0
      5
      five
      []
      room
      (socket_recv_until_null_reached wire (pos 4) room 5 0 five)
socket_recv_until_null_reached_lem_example =
    socket_recv_until_null_reached_lem wire-IsStream (pos 4) 0 5 room five (omega arith)
      (omega arith)
