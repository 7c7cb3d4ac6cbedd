-- ===== src/Client.antt =====
-- TestClient/main.cpp: RecvAll and ReadOnePacket. What the socket gives is a list of the pieces in
-- which the bytes come; an empty piece is the end of the connection, no piece an error.
pub mod Packets
pub mod Thread
pub mod Login
pub mod Main
mod Tests
use iocpserver.Prelude.{
  ℕ, zero, suc, ◌-◌, Option, none, some, List, [], ◌∷◌, ◌++◌, length, take, drop, leb, ltb, ◌==◌,
  if◌then◌else◌, ◌>>=◌,
}
use iocpserver.Packet.Header.{header_size}

unfoldable pub prepend : List ℕ → Option (List ℕ × List (List ℕ)) → Option (List ℕ × List (List ℕ))
prepend bytes none = none
prepend bytes (some (got, left)) = some (bytes ++ got, left)

-- One call of recv, of at most `len` bytes, and the loop behind it. A failure or the end of the
-- connection is `none`; the callers treat both alike.
unfoldable pub recv_all : List (List ℕ) → ℕ → Option (List ℕ × List (List ℕ))
unfolding prepend
recv_all pieces zero = some ([], pieces)
recv_all [] (suc len) = none
recv_all ([] ∷ pieces) (suc len) = none
recv_all ((b ∷ bs) ∷ pieces) (suc len) =
    let more = prepend (b ∷ bs) (recv_all pieces (suc len - length (b ∷ bs))) in
    if leb (length (b ∷ bs)) (suc len)
    then more
    else some (take (suc len) (b ∷ bs), drop (suc len) (b ∷ bs) ∷ pieces)

-- The body is read only if there is one.
unfoldable pub read_body : List ℕ → List (List ℕ) → Option (List ℕ × List (List ℕ))
read_body head pieces =
    if ltb (header_size head) 4 then none else prepend head (recv_all pieces (header_size head - 4))

unfoldable pub read_one_packet : List (List ℕ) → Option (List ℕ × List (List ℕ))
unfolding read_body
read_one_packet pieces = do (head, left) ← recv_all pieces 4; read_body head left
