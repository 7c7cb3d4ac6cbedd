-- ===== src/RingBuffer/Tests.antt =====
-- A ring of eight bytes whose data wraps, and the ring's lemmas at it.
use iocpserver.Prelude.{◌≡◌, refl, inr, true, false, some, [], ◌∷◌, take, drop, slice, arith}
use iocpserver.Prelude.Int.{pos}
use iocpserver.RingBuffer.{RingBuffer, read, write, advance}
use iocpserver.RingBuffer.Valid.{IsValid}
use iocpserver.RingBuffer.Contents.{contents}
use iocpserver.RingBuffer.Write.{Wrote, write_lem}
use iocpserver.RingBuffer.Read.{read_lem, read_refused}

-- 7, 8 at the end and 9 at the start.
abbrev wrapped : RingBuffer
wrapped = record {
  buffer = 9 ∷ 1 ∷ 2 ∷ 3 ∷ 4 ∷ 5 ∷ 7 ∷ 8 ∷ [];
  buffer_size = 8;
  read_pos = 6;
  write_pos = 1;
}

wrapped-IsValid : IsValid wrapped
wrapped-IsValid = omega arith

contents-wrapped : contents wrapped ≡ 7 ∷ 8 ∷ 9 ∷ []
unfolding contents slice
contents-wrapped = refl

write_example :
    (r : RingBuffer) × (write wrapped (10 ∷ 11 ∷ 12 ∷ []) (pos 2) ≡ some (true, r))
    × Wrote wrapped (10 ∷ 11 ∷ []) r
write_example =
    write_lem wrapped-IsValid (10 ∷ 11 ∷ 12 ∷ []) 2 (omega arith) (omega arith) (omega arith)

read_example :
    (read wrapped (pos 3) ≡ some (true, take 3 (contents wrapped), advance wrapped (pos 3)))
    × IsValid (advance wrapped (pos 3))
    × (contents (advance wrapped (pos 3)) ≡ drop 3 (contents wrapped))
read_example = read_lem wrapped-IsValid 3 (omega arith) (omega arith) (inr (omega arith))

read_refused_example : read wrapped (pos 4) ≡ some (false, [], wrapped)
read_refused_example = read_refused wrapped-IsValid 4 (omega arith)
