-- ===== src/StressTest/Exchange.antt =====
-- WorkerLoop of StressTest/main.cpp: the send buffer, and one exchange with the server.
pub mod Buffer
pub mod Packets
use iocpserver.Prelude.{
  ℕ, ◌+◌, ◌-◌, ◌*◌, ◌%◌, ◌^◌, Bool, true, false, Option, none, some, List, [], ◌∷◌, length, take,
  get_or, replicate, copy_in, ltb, if◌then◌else◌, ◌>>=◌,
}
use iocpserver.Prelude.Int.{pos_part, to_int32}
use iocpserver.Packet.Header.{u16, u16_bytes}
use iocpserver.Packet.Structs.{le_bytes, value_of}
use iocpserver.StressTest.{Proto, raw, len_prefixed, packet}
use iocpserver.StressTest.Socket.{Socket, Net, send_all, recv_exact}

-- vSendBuf as it is before the loop; `none` is a write past its end.
unfoldable pub make_buffer : Proto → List ℕ → ℕ → Option (List ℕ)
make_buffer raw payload id = some []
make_buffer len_prefixed payload id =
    copy_in (replicate (4 + length payload) 0) 0 (le_bytes 4 (length payload)) 4
    >>= (λ buf. copy_in buf 4 payload (length payload))
make_buffer packet payload id =
    let size = (4 + length payload) % 2 ^ 16 in
    copy_in (replicate size 0) 0 (u16_bytes size) 2 >>= (λ buf. copy_in buf 2 (u16_bytes id) 2)

-- static_cast<int> of a size, where a loop counts up to it.
abbrev pub as_int : ℕ → ℕ
as_int n = pos_part (to_int32 n)

module _ (net : Net) where
  -- SendAll of a whole vector, and RecvExact into a new one.
  unfoldable pub send_vector : List ℕ → Socket → Option (Bool × Socket)
  send_vector bytes s = send_all net (take (as_int (length bytes)) bytes) s

  unfoldable pub recv_vector : ℕ → Socket → Option (Bool × Socket)
  recv_vector n s =
      recv_exact net (as_int n) s
      >>= (λ r. elim r.0 [ none ↦ some (false, r.1) | some bytes ↦ some (true, r.1) ])

  unfoldable pub recv_len_prefixed : Socket → Option (Bool × Socket)
  unfolding recv_vector
  recv_len_prefixed s = recv_exact net 4 s >>= (λ r. elim r.0 [
    | none ↦ some (false, r.1)
    | some bytes ↦ recv_vector (value_of bytes) r.1
  ])

  unfoldable pub recv_body : ℕ → Socket → Option (Bool × Socket)
  unfolding recv_vector
  recv_body size s = if ltb size 4 then some (false, s) else recv_vector (size - 4) s

  unfoldable pub recv_packet : Socket → Option (Bool × Socket)
  unfolding recv_body
  recv_packet s = recv_exact net 2 s >>= (λ r. elim r.0 [
    | none ↦ some (false, r.1)
    | some size ↦ recv_exact net 2 r.1 >>= (λ q. elim q.0 [
      | none ↦ some (false, q.1)
      | some id ↦ recv_body (u16 (get_or size 0 0) (get_or size 1 0)) q.1
    ])
  ])

  -- bOk and the socket after one exchange.
  unfoldable pub if_sent :
      (Socket → Option (Bool × Socket)) → Bool × Socket → Option (Bool × Socket)
  if_sent recv (true, s) = recv s
  if_sent recv (false, s) = some (false, s)

  -- The exchange also writes the payload into the buffer of a packet.
  unfoldable pub exchange : Proto → List ℕ → List ℕ → Socket → Option (List ℕ × (Bool × Socket))
  unfolding if_sent send_vector recv_vector recv_len_prefixed recv_packet
  exchange raw payload buf s =
      send_vector payload s >>= if_sent (recv_vector (length payload)) >>= (λ r. some (buf, r))
  exchange len_prefixed payload buf s =
      send_vector buf s >>= if_sent recv_len_prefixed >>= (λ r. some (buf, r))
  exchange packet payload buf s =
      copy_in buf 4 payload (length payload)
      >>= (λ filled. send_vector filled s >>= if_sent recv_packet >>= (λ r. some (filled, r)))
