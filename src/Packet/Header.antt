-- ===== src/Packet/Header.antt =====
-- `struct PacketHeader`: two little-endian UINT16, the packet's whole size and its id.
use iocpserver.Prelude.{
  ℕ, ◌+◌, ◌*◌, ◌/◌, ◌%◌, ◌^◌, ◌<◌, ◌≡◌, refl, List, [], ◌∷◌, ◌++◌, get_or, take, arith,
}

-- PACKET_HEADER_SIZE
abbrev pub packet_header_size : ℕ
packet_header_size = 4

abbrev pub u16 : ℕ → ℕ → ℕ
u16 lo hi = lo + 256 * hi

abbrev pub u16_bytes : ℕ → List ℕ
u16_bytes n = n % 256 ∷ n / 256 % 256 ∷ []

-- The fields, read at their offsets.
unfoldable pub header_size : List ℕ → ℕ
header_size bytes = u16 (get_or bytes 0 0) (get_or bytes 1 0)

unfoldable pub header_id : List ℕ → ℕ
header_id bytes = u16 (get_or bytes 2 0) (get_or bytes 3 0)

unfoldable pub header : ℕ → ℕ → List ℕ
header size id = u16_bytes size ++ u16_bytes id

-- Of a header built from a size and an id below 2 ^ 16, whatever follows it, the same size and id
-- are read.
pub header_round_trip :
    (size id : ℕ) (rest : List ℕ)
    → size < 2 ^ 16
    → id < 2 ^ 16
    → (header_size (header size id ++ rest) ≡ size) × (header_id (header size id ++ rest) ≡ id)
unfolding header header_size header_id
header_round_trip size id rest h k = omega arith

-- The size is in the first four bytes.
pub header_size-take : (bytes : List ℕ) → header_size (take 4 bytes) ≡ header_size bytes
unfolding header_size
header_size-take [] = refl
header_size-take (a ∷ []) = refl
header_size-take (a ∷ b ∷ rest) = refl
