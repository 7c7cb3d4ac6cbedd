-- ===== src/RingBuffer/Read.antt =====
-- What `Read`, `Peek` and `Remove` do to a well-formed ring.
use iocpserver.Prelude.{
  ℕ, ◌-◌, ◌≤◌, ◌<◌, ◌≡◌, ◌⊎◌, inl, inr, true, false, some, none, [], arith, take, drop,
  copy_out_lem, copy_out_past, ◌^◌,
}
use iocpserver.Prelude.Int.{pos, to_int32, sub_size}
use iocpserver.RingBuffer.{RingBuffer, advance, read, peek, remove}
use iocpserver.RingBuffer.Valid.{IsValid, stored, get_stored_size_lem, order}
use iocpserver.RingBuffer.Contents.{contents}
use iocpserver.RingBuffer.Front.{
  front, front_lem, front_once, front_twice, advance-IsValid, contents-advance,
}

-- The read does not lie, whole and with bytes to spare, before the end of a ring whose data wraps.
abbrev pub IsReadable : RingBuffer → ℕ → Type 0
IsReadable r n = (r.read_pos < r.write_pos) ⊎ (r.buffer_size - r.read_pos ≤ n)

module _ {r : RingBuffer} (v : IsValid r) where
  first : to_int32 (sub_size r.buffer_size r.read_pos) ≡ pos (r.buffer_size - r.read_pos)
  first = ground (arith, v.read_in, v.small)

  -- A `Read` of more than is stored is refused and changes nothing.
  pub read_refused : (n : ℕ) → stored r < n → read r (pos n) ≡ some (false, [], r)
  unfolding read
  read_refused n h = rw (get_stored_size_lem v) (ground arith)

  module _ (n : ℕ) (some_bytes : 0 < n) (within : n ≤ stored r) where
    read-front : IsReadable r n → read r (pos n) ≡ some (true, front r n, advance r (pos n))
    unfolding read
    read-front (inl straight) =
        rw (get_stored_size_lem v, first, front_once v n within (inl (omega arith)))
          (ground (arith, copy_out_lem r.buffer r.read_pos n))
    read-front (inr round) = elim (order r.read_pos r.write_pos) [
      | inl straight ↦
          rw (get_stored_size_lem v, first, front_once v n within (inl (omega arith)))
            (ground (arith, copy_out_lem r.buffer r.read_pos n))
      | inr wraps ↦
          rw (get_stored_size_lem v, first, front_twice v n within (ground arith) round)
            (ground (
              arith,
              copy_out_lem r.buffer r.read_pos (r.buffer_size - r.read_pos),
              copy_out_lem r.buffer 0 (n - (r.buffer_size - r.read_pos)),
            ))
    ]

    -- On a well-formed ring a readable `Read` of `n` bytes, at least one and at most what is
    -- stored, returns the oldest `n` bytes, keeps the ring well formed and leaves the rest.
    pub read_lem :
        IsReadable r n
        → (read r (pos n) ≡ some (true, take n (contents r), advance r (pos n)))
          × IsValid (advance r (pos n))
          × (contents (advance r (pos n)) ≡ drop n (contents r))
    read_lem h = (
      rw (← front_lem v n within) (read-front h),
      advance-IsValid v n within,
      contents-advance v n within,
    )

    -- On a well-formed ring a `Read` of at least one byte and at most what is stored that is not
    -- readable copies past the end of the buffer.
    pub read_overrun : ¬ IsReadable r n → read r (pos n) ≡ none
    unfolding read
    read_overrun h =
        rw (get_stored_size_lem v, first)
          (ground (
            arith,
            copy_out_lem r.buffer r.read_pos (r.buffer_size - r.read_pos),
            copy_out_past r.buffer 0 (2 ^ 64 - 1 - (r.buffer_size - r.read_pos - n - 1)),
          ))

    -- On a well-formed ring a `Peek` of at least one byte and at most what is stored returns the
    -- oldest bytes, whatever the positions.
    pub peek_lem : peek r (pos n) ≡ some (true, take n (contents r))
    unfolding peek
    peek_lem =
        rw (← front_lem v n within, get_stored_size_lem v, first)
          (elim (order (r.buffer_size - r.read_pos) n) [
            | inr once ↦
                rw (front_once v n within (inr once))
                  (ground (arith, copy_out_lem r.buffer r.read_pos n))
            | inl twice ↦ elim (order r.write_pos r.read_pos) [
              | inl wraps ↦ rw (front_twice v n within wraps (omega arith)) (
                  ground (
                    arith,
                    copy_out_lem r.buffer r.read_pos (r.buffer_size - r.read_pos),
                    copy_out_lem r.buffer 0 (n - (r.buffer_size - r.read_pos)),
                  ))
              | inr straight ↦ absurd (ground arith)
            ]
          ])

    -- On a well-formed ring a `Remove` of at least one byte and at most what is stored succeeds,
    -- keeps the ring well formed and drops the oldest bytes.
    pub remove_lem :
        (remove r (pos n) ≡ (true, advance r (pos n)))
        × IsValid (advance r (pos n))
        × (contents (advance r (pos n)) ≡ drop n (contents r))
    unfolding remove
    remove_lem = (
      rw (get_stored_size_lem v) (ground arith),
      advance-IsValid v n within,
      contents-advance v n within,
    )
