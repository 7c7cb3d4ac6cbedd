-- ===== src/RingBuffer/Write.antt =====
-- What `Write` does to a well-formed ring.
use iocpserver.Prelude.{
  ℕ, ◌+◌, ◌-◌, ◌%◌, ◌≤◌, ◌<◌, ◌≡◌, refl, sym, ◌∙◌, ap, ap₂, ◌⊎◌, inl, inr, true, false, some, List,
  ◌++◌, append-nil, append_assoc, arith, length, take, drop, splice, slice, length-splice,
  length-take, length-drop, slice-splice_end, slice-splice_after, slice-splice_at, slice-zero,
  take_add, copy_in_lem, leb, if◌then◌else◌,
}
use iocpserver.Prelude.Int.{pos, to_int32, sub_size, add_size}
use iocpserver.RingBuffer.{RingBuffer, write}
use iocpserver.RingBuffer.Valid.{IsValid, stored, stored-lt, get_free_size_lem, turn, order}
use iocpserver.RingBuffer.Contents.{contents, contents_straight, contents_wrapped}

-- `r'` is `r` with `bytes` behind what it held.
pub record Wrote (r : RingBuffer) (bytes : List ℕ) (r' : RingBuffer) : Type 0 where
  pub valid : IsValid r'
  pub appended : contents r' ≡ contents r ++ bytes
  pub same_read : r'.read_pos ≡ r.read_pos
  pub same_size : r'.buffer_size ≡ r.buffer_size

module _ {r : RingBuffer} (v : IsValid r) where
  room : to_int32 (sub_size r.buffer_size r.write_pos) ≡ pos (r.buffer_size - r.write_pos)
  room = ground (arith, v.write_in, v.small)

  module _ (d : List ℕ) (n e : ℕ) (len : length d ≡ n) (some_bytes : 0 < n) where
    Wrote-once :
        stored r + n < r.buffer_size
        → r.write_pos + n ≤ r.buffer_size
        → e ≡ add_size r.write_pos n % r.buffer_size
        → Wrote r d (record r { buffer = splice r.buffer r.write_pos d; write_pos = e })
    Wrote-once fits one_copy at_end = record {
      valid = ground (arith, turned, length-splice r.buffer r.write_pos d);
      appended = elim (order r.write_pos r.read_pos) [
        | inl above ↦ wrapped above
        | inr below ↦ elim (order (r.write_pos + n) r.buffer_size) [
          | inl inside ↦ straight below inside
          | inr full ↦ to_the_end below full
        ]
      ];
      same_read = refl;
      same_size = refl;
    }
      where
        r' : RingBuffer
        r' = record r { buffer = splice r.buffer r.write_pos d; write_pos = e }

        turned : add_size r.write_pos n % r.buffer_size ≡ (
            if leb r.buffer_size (r.write_pos + n)
            then r.write_pos + n - r.buffer_size
            else r.write_pos + n)
        turned = turn r.buffer_size r.write_pos n v.write_in (omega arith) v.small

        wrapped : r.write_pos < r.read_pos → contents r' ≡ contents r ++ d
        wrapped above =
            contents_wrapped r' (ground (arith, turned))
            ∙ ap₂ ◌++◌
                (slice-splice_after r.buffer r.write_pos d r.read_pos _ (ground arith)
                  (ground arith))
                (slice-splice_end r.buffer r.write_pos d 0 r.write_pos n e (omega arith) len
                  (ground (arith, turned)) (ground arith))
            ∙ sym (append_assoc _ _ d)
            ∙ ap (λ xs. xs ++ d) (sym (contents_wrapped r above))

        straight :
            r.read_pos ≤ r.write_pos
            → r.write_pos + n < r.buffer_size
            → contents r' ≡ contents r ++ d
        straight below inside =
            contents_straight r' (ground (arith, turned))
            ∙ slice-splice_end r.buffer r.write_pos d r.read_pos (r.write_pos - r.read_pos) n _
                (omega arith) len (ground (arith, turned)) (ground arith)
            ∙ ap (λ xs. xs ++ d) (sym (contents_straight r below))

        to_the_end :
            r.read_pos ≤ r.write_pos
            → r.buffer_size ≤ r.write_pos + n
            → contents r' ≡ contents r ++ d
        to_the_end below full =
            contents_wrapped r' (ground (arith, turned))
            ∙ ap₂ ◌++◌
                (slice-splice_end r.buffer r.write_pos d r.read_pos (r.write_pos - r.read_pos) n _
                  (omega arith) len (omega arith) (ground arith))
                (ap (slice r'.buffer 0) (ground (arith, turned)) ∙ slice-zero r'.buffer 0)
            ∙ append-nil _
            ∙ ap (λ xs. xs ++ d) (sym (contents_straight r below))

    Wrote-twice :
        stored r + n < r.buffer_size
        → r.buffer_size < r.write_pos + n
        → e ≡ add_size r.write_pos n % r.buffer_size
        → (d₁ d₂ : List ℕ) → d ≡ d₁ ++ d₂
        → length d₁ ≡ r.buffer_size - r.write_pos
        → length d₂ ≡ n - (r.buffer_size - r.write_pos)
        → Wrote r d
            (record r { buffer = splice (splice r.buffer r.write_pos d₁) 0 d₂; write_pos = e })
    Wrote-twice fits two_copies at_end d₁ d₂ parts l₁ l₂ = record {
      valid = ground (
        arith,
        turned,
        length-splice r.buffer r.write_pos d₁,
        length-splice (splice r.buffer r.write_pos d₁) 0 d₂,
      );
      appended =
          contents_wrapped r' (ground (arith, turned))
          ∙ ap₂ ◌++◌
              (slice-splice_after (splice r.buffer r.write_pos d₁) 0 d₂ r.read_pos _ (ground arith)
                  (ground (arith, length-splice r.buffer r.write_pos d₁))
                ∙ slice-splice_end r.buffer r.write_pos d₁ r.read_pos (r.write_pos - r.read_pos)
                    (r.buffer_size - r.write_pos) _ (ground arith) l₁ (ground arith) (ground arith))
              (slice-splice_at (splice r.buffer r.write_pos d₁) 0 d₂ e (ground (arith, turned))
                (omega arith))
          ∙ append_assoc _ d₁ d₂
          ∙ ap₂ ◌++◌ (sym (contents_straight r (ground arith))) (sym parts);
      same_read = refl;
      same_size = refl;
    }
      where
        r' : RingBuffer
        r' = record r { buffer = splice (splice r.buffer r.write_pos d₁) 0 d₂; write_pos = e }

        turned : add_size r.write_pos n % r.buffer_size ≡ (
            if leb r.buffer_size (r.write_pos + n)
            then r.write_pos + n - r.buffer_size
            else r.write_pos + n)
        turned = turn r.buffer_size r.write_pos n v.write_in (omega arith) v.small

-- On a well-formed ring `Write` refuses the length 0 and one above the free room, and changes
-- nothing.
pub write_refused :
    {r : RingBuffer}
    → IsValid r
    → (src : List ℕ) (n : ℕ) → (n ≡ 0) ⊎ (r.buffer_size ≤ stored r + n)
    → write r src (pos n) ≡ some (false, r)
unfolding write
write_refused v src n h = rw (get_free_size_lem v) (ground (arith, stored-lt v))

-- On a well-formed ring a `Write` of `n` bytes, at least one, that leaves a byte free succeeds,
-- stays inside the buffer, keeps the ring well formed, and puts exactly those bytes behind what
-- the ring held.
pub write_lem :
    {r : RingBuffer}
    → IsValid r
    → (src : List ℕ) (n : ℕ) → 0 < n
    → stored r + n < r.buffer_size
    → n ≤ length src
    → (r' : RingBuffer) × (write r src (pos n) ≡ some (true, r')) × Wrote r (take n src) r'
unfolding write
write_lem {r} v src n some_bytes fits enough = elim (order r.buffer_size (r.write_pos + n)) [
  | inl over ↦ (
    _,
    rw (get_free_size_lem v, room v)
        (ground (
          arith,
          copy_in_lem r.buffer r.write_pos src first,
          length-splice r.buffer r.write_pos (take first src),
          length-take first src,
          length-drop first src,
          copy_in_lem (splice r.buffer r.write_pos (take first src)) 0 (drop first src) (n - first),
        )),
    Wrote-twice v (take n src) n _ taken some_bytes fits over refl (take first src)
        (take (n - first) (drop first src))
        (ap (λ k. take k src) (omega arith) ∙ take_add first (n - first) src)
        (omega (arith, length-take first src))
        (omega (arith, length-take (n - first) (drop first src), length-drop first src)),
  )
  | inr within ↦ (
    _,
    rw (get_free_size_lem v, room v) (ground (arith, copy_in_lem r.buffer r.write_pos src n)),
    Wrote-once v (take n src) n _ taken some_bytes fits within refl,
  )
]
  where
    first : ℕ
    first = r.buffer_size - r.write_pos

    taken : length (take n src) ≡ n
    taken = omega (arith, length-take n src)
