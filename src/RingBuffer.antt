-- ===== src/RingBuffer.antt =====
-- ServerCoreLibrary/RingBuffer.h and RingBuffer.cpp (ServerCore/ holds the same text): the byte
-- ring in which a session reassembles its stream. A method returns the new ring beside its result;
-- `none` is a memcpy outside the buffer. `m_bIsEmpty` is never read or written and is left out.
pub mod Valid
pub mod Contents
pub mod Write
pub mod Front
pub mod Read
mod Tests
use iocpserver.Prelude.{
  ℕ, ◌+◌, ◌%◌, Bool, true, false, ◌||◌, ◌&&◌, Option, some, List, [], ◌++◌, drop, replicate, leb,
  ltb, if◌then◌else◌, ◌>>=◌, copy_in, copy_out,
}
use iocpserver.Prelude.Int.{ℤ, pos, ltb_ℤ, leb_ℤ, ◌-ℤ◌, to_int32, to_size, add_size, sub_size}

pub record RingBuffer : Type 0 where
  pub buffer : List ℕ
  pub buffer_size : ℕ
  pub read_pos : ℕ
  pub write_pos : ℕ

-- RingBuffer(size_t). The positions are not initialised, so they are arguments.
unfoldable pub make : ℕ → ℕ → ℕ → RingBuffer
make size read_pos write_pos = record {
  buffer = replicate size 0;
  buffer_size = size;
  read_pos = read_pos;
  write_pos = write_pos;
}

unfoldable pub clear : RingBuffer → RingBuffer
clear r = record r { read_pos = 0; write_pos = 0 }

unfoldable pub get_stored_size : RingBuffer → ℤ
get_stored_size r =
    if leb r.read_pos r.write_pos
    then to_int32 (sub_size r.write_pos r.read_pos)
    else to_int32 (add_size (sub_size r.buffer_size r.read_pos) r.write_pos)

unfoldable pub get_free_size : RingBuffer → ℤ
get_free_size r = to_int32 (sub_size (sub_size r.buffer_size (to_size (get_stored_size r))) 1)

-- The one or two copies of `Write`, by the room up to the end of the buffer.
write_bytes : RingBuffer → List ℕ → ℤ → ℤ → Option (List ℕ)
write_bytes r src len first =
    if leb_ℤ len first then copy_in r.buffer r.write_pos src (to_size len) else do
      buf ← copy_in r.buffer r.write_pos src (to_size first)
      copy_in buf 0 (drop (to_size first) src) (to_size (len -ℤ first))

unfoldable pub write : RingBuffer → List ℕ → ℤ → Option (Bool × RingBuffer)
unfolding write_bytes
write r src len = if leb_ℤ len (pos 0) || ltb_ℤ (get_free_size r) len then some (false, r) else do
  buf ← write_bytes r src len (to_int32 (sub_size r.buffer_size r.write_pos))
  some (
    true,
    record r { buffer = buf; write_pos = add_size r.write_pos (to_size len) % r.buffer_size },
  )

-- The two copies that `Read` makes whenever the read position is not below the write position.
read_wrapped : RingBuffer → ℤ → ℤ → Option (List ℕ)
read_wrapped r len first = do
  front ← copy_out r.buffer r.read_pos (to_size first)
  back ← copy_out r.buffer 0 (to_size (len -ℤ first))
  some (front ++ back)

read_bytes : RingBuffer → ℤ → Option (List ℕ)
unfolding read_wrapped
read_bytes r len =
    if ltb r.read_pos r.write_pos
    then copy_out r.buffer r.read_pos (to_size len)
    else read_wrapped r len (to_int32 (sub_size r.buffer_size r.read_pos))

abbrev pub advance : RingBuffer → ℤ → RingBuffer
advance r len = record r { read_pos = add_size r.read_pos (to_size len) % r.buffer_size }

unfoldable pub read : RingBuffer → ℤ → Option (Bool × List ℕ × RingBuffer)
unfolding read_bytes
read r len =
    if ltb_ℤ (get_stored_size r) len
    then some (false, [], r)
    else do out ← read_bytes r len; some (true, out, advance r len)

peek_bytes : RingBuffer → ℤ → ℤ → Option (List ℕ)
unfolding read_wrapped
peek_bytes r len first =
    if leb_ℤ len first then copy_out r.buffer r.read_pos (to_size len) else read_wrapped r len first

unfoldable pub peek : RingBuffer → ℤ → Option (Bool × List ℕ)
unfolding peek_bytes
peek r len =
    if leb_ℤ len (pos 0) || ltb_ℤ (get_stored_size r) len
    then some (false, [])
    else do out ← peek_bytes r len (to_int32 (sub_size r.buffer_size r.read_pos)); some (true, out)

-- `Remove` tests for 0 only: a negative length passes.
unfoldable pub remove : RingBuffer → ℤ → Bool × RingBuffer
remove r len =
    if (leb_ℤ len (pos 0) && leb_ℤ (pos 0) len) || ltb_ℤ (get_stored_size r) len
    then (false, r)
    else (true, advance r len)
