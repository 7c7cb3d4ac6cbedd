-- ===== src/RingBuffer/Contents.antt =====
-- The bytes that a ring holds, oldest first.
use iocpserver.Prelude.{
  ℕ, ◌-◌, ◌≤◌, ◌<◌, ◌≡◌, List, ◌++◌, leb, if◌then◌else◌, arith, length, slice, length-slice,
  length-append,
}
use iocpserver.RingBuffer.{RingBuffer}
use iocpserver.RingBuffer.Valid.{IsValid, stored}

unfoldable pub contents : RingBuffer → List ℕ
contents r =
    if leb r.read_pos r.write_pos
    then slice r.buffer r.read_pos (r.write_pos - r.read_pos)
    else slice r.buffer r.read_pos (r.buffer_size - r.read_pos) ++ slice r.buffer 0 r.write_pos

pub contents_straight :
    (r : RingBuffer)
    → r.read_pos ≤ r.write_pos
    → contents r ≡ slice r.buffer r.read_pos (r.write_pos - r.read_pos)
unfolding contents
contents_straight r h = ground arith

pub contents_wrapped :
    (r : RingBuffer)
    → r.write_pos < r.read_pos
    → contents r
      ≡ slice r.buffer r.read_pos (r.buffer_size - r.read_pos) ++ slice r.buffer 0 r.write_pos
unfolding contents
contents_wrapped r h = ground arith

pub length-contents : {r : RingBuffer} → IsValid r → length (contents r) ≡ stored r
unfolding contents
length-contents {r} v = ground (
  arith,
  length-slice r.buffer r.read_pos (r.write_pos - r.read_pos),
  length-slice r.buffer r.read_pos (r.buffer_size - r.read_pos),
  length-slice r.buffer 0 r.write_pos,
  length-append (slice r.buffer r.read_pos (r.buffer_size - r.read_pos))
      (slice r.buffer 0 r.write_pos),
)
