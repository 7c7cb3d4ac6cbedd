-- ===== src/RingBuffer/Front.antt =====
-- The oldest bytes of a ring, and what is left when the read position moves past them.
use iocpserver.Prelude.{
  ℕ, ◌+◌, ◌-◌, ◌%◌, ◌≤◌, ◌<◌, ◌≡◌, sym, ◌∙◌, ap, ap₂, ◌||◌, ◌⊎◌, inl, inr, List, ◌++◌, append-nil,
  append_assoc, arith, length, take, drop, slice, length-slice, length-append, slice_add, slice_eq,
  slice-zero, take-append_eq, drop-append_ge, leb, if◌then◌else◌,
}
use iocpserver.Prelude.Int.{pos, add_size}
use iocpserver.RingBuffer.{RingBuffer, advance}
use iocpserver.RingBuffer.Valid.{IsValid, stored, turn, order}
use iocpserver.RingBuffer.Contents.{contents, contents_straight, contents_wrapped}

pub front : RingBuffer → ℕ → List ℕ
front r n =
    if leb r.read_pos r.write_pos || leb n (r.buffer_size - r.read_pos)
    then slice r.buffer r.read_pos n
    else slice r.buffer r.read_pos (r.buffer_size - r.read_pos)
      ++ slice r.buffer 0 (n - (r.buffer_size - r.read_pos))

module _ {r : RingBuffer} (v : IsValid r) (n : ℕ) (within : n ≤ stored r) where
  turned : add_size r.read_pos n % r.buffer_size ≡ (
      if leb r.buffer_size (r.read_pos + n) then r.read_pos + n - r.buffer_size else r.read_pos + n)
  turned = turn r.buffer_size r.read_pos n v.read_in (ground arith) v.small

  pub advance-IsValid : IsValid (advance r (pos n))
  advance-IsValid = ground (arith, turned)

  pub length-front : length (front r n) ≡ n
  unfolding front
  length-front = ground (
    arith,
    length-slice r.buffer r.read_pos n,
    length-slice r.buffer r.read_pos (r.buffer_size - r.read_pos),
    length-slice r.buffer 0 (n - (r.buffer_size - r.read_pos)),
    length-append (slice r.buffer r.read_pos (r.buffer_size - r.read_pos))
        (slice r.buffer 0 (n - (r.buffer_size - r.read_pos))),
  )

  pub front_once :
      (r.read_pos ≤ r.write_pos) ⊎ (n ≤ r.buffer_size - r.read_pos)
      → front r n ≡ slice r.buffer r.read_pos n
  unfolding front
  front_once h = ground arith

  pub front_twice :
      r.write_pos < r.read_pos
      → r.buffer_size - r.read_pos ≤ n
      → front r n
        ≡ slice r.buffer r.read_pos (r.buffer_size - r.read_pos)
          ++ slice r.buffer 0 (n - (r.buffer_size - r.read_pos))
  unfolding front
  front_twice h k = elim (order (r.buffer_size - r.read_pos) n) [
    | inl over ↦ ground arith
    | inr exact ↦ ground (
      arith,
      ap (slice r.buffer r.read_pos) (exactly exact),
      ap (slice r.buffer 0) (nothing exact),
      slice-zero r.buffer 0,
      append-nil (slice r.buffer r.read_pos (r.buffer_size - r.read_pos)),
    )
  ]
    where
      exactly : n ≤ r.buffer_size - r.read_pos → n ≡ r.buffer_size - r.read_pos
      exactly e = omega arith

      nothing : n ≤ r.buffer_size - r.read_pos → n - (r.buffer_size - r.read_pos) ≡ 0
      nothing e = omega arith

  contents_split : contents r ≡ front r n ++ contents (advance r (pos n))
  contents_split = elim (order r.write_pos r.read_pos) [
    | inr below ↦
        contents_straight r below
        ∙ slice_add r.buffer r.read_pos n (r.write_pos - r.read_pos - n) _ (ground arith)
        ∙ ap₂ ◌++◌ (sym (front_once (inl below))) (
            slice_eq r.buffer (r.read_pos + n) (advance r (pos n)).read_pos
              (r.write_pos - r.read_pos - n) (r.write_pos - (advance r (pos n)).read_pos)
              (ground (arith, turned)) (ground (arith, turned))
            ∙ sym (contents_straight (advance r (pos n)) (ground (arith, turned))))
    | inl above ↦ elim (order n (r.buffer_size - r.read_pos)) [
      | inl short ↦
          contents_wrapped r above
          ∙ ap (λ xs. xs ++ slice r.buffer 0 r.write_pos)
              (slice_add r.buffer r.read_pos n (r.buffer_size - r.read_pos - n) _ (omega arith))
          ∙ append_assoc (slice r.buffer r.read_pos n)
              (slice r.buffer (r.read_pos + n) (r.buffer_size - r.read_pos - n))
              (slice r.buffer 0 r.write_pos)
          ∙ ap₂ ◌++◌ (sym (front_once (inr (omega arith)))) (
              ap (λ xs. xs ++ slice r.buffer 0 r.write_pos)
                (slice_eq r.buffer (r.read_pos + n) (advance r (pos n)).read_pos
                  (r.buffer_size - r.read_pos - n) (r.buffer_size - (advance r (pos n)).read_pos)
                  (ground (arith, turned)) (ground (arith, turned)))
              ∙ sym (contents_wrapped (advance r (pos n)) (ground (arith, turned))))
      | inr long ↦
          contents_wrapped r above
          ∙ ap (◌++◌ (slice r.buffer r.read_pos (r.buffer_size - r.read_pos))) (
              slice_add r.buffer 0 (n - (r.buffer_size - r.read_pos))
                (r.write_pos - (n - (r.buffer_size - r.read_pos))) r.write_pos (ground arith))
          ∙ sym (
              append_assoc (slice r.buffer r.read_pos (r.buffer_size - r.read_pos))
                (slice r.buffer 0 (n - (r.buffer_size - r.read_pos)))
                (slice r.buffer (0 + (n - (r.buffer_size - r.read_pos)))
                  (r.write_pos - (n - (r.buffer_size - r.read_pos)))))
          ∙ ap₂ ◌++◌ (sym (front_twice above long)) (
              slice_eq r.buffer (0 + (n - (r.buffer_size - r.read_pos)))
                (advance r (pos n)).read_pos (r.write_pos - (n - (r.buffer_size - r.read_pos)))
                (r.write_pos - (advance r (pos n)).read_pos) (ground (arith, turned))
                (ground (arith, turned))
              ∙ sym (contents_straight (advance r (pos n)) (ground (arith, turned))))
    ]
  ]

  pub front_lem : front r n ≡ take n (contents r)
  front_lem = sym (ap (take n) contents_split ∙ take-append_eq n (front r n) _ length-front)

  pub contents-advance : contents (advance r (pos n)) ≡ drop n (contents r)
  contents-advance =
      sym (
        ap (drop n) contents_split ∙ drop-append_ge n 0 (front r n) _ (omega (arith, length-front)))

  -- Data that does not wrap still does not when its front is gone.
  pub advance-straight : r.read_pos ≤ r.write_pos → (advance r (pos n)).read_pos ≤ r.write_pos
  advance-straight h = ground (arith, turned)
