-- ===== src/Prelude/Slices.antt =====
-- Bulk copies of memory: `slice` is what memcpy reads, `splice` what it writes.
use Prim.Native.Nat.{ℕ, ◌+◌, ◌-◌, ◌≤◌}
use mathlib.Core.Path.{◌≡◌, refl, sym, ap, ap₂, ◌∙◌}
use mathlib.Core.List.{List, [], ◌++◌}
use native.Mathlib.Omega.{arith}
use iocpserver.Prelude.Lists.{
  length, take, drop, length-append, length-take, length-drop, take-append_le, drop-append_le,
  take-append_eq, drop-append_ge, drop-drop, take_add, take-append-drop,
}

module _ {ℓ} {A : Type ℓ} where
  unfoldable pub slice : List A → ℕ → ℕ → List A
  slice buf p n = take n (drop p buf)

  unfoldable pub splice : List A → ℕ → List A → List A
  splice buf p xs = take p buf ++ (xs ++ drop (p + length xs) buf)

  pub length-slice : (buf : List A) (p n : ℕ) → p + n ≤ length buf → length (slice buf p n) ≡ n
  unfolding slice
  length-slice buf p n h = omega (arith, length-take n (drop p buf), length-drop p buf)

  pub slice-zero : (buf : List A) (p : ℕ) → slice buf p 0 ≡ []
  unfolding slice
  slice-zero buf p = refl

  pub slice_add :
      (buf : List A) (p m n k : ℕ)
      → k ≡ m + n
      → slice buf p k ≡ slice buf p m ++ slice buf (p + m) n
  unfolding slice
  slice_add buf p m n k e =
      ap (λ j. take j (drop p buf)) e
      ∙ take_add m n (drop p buf)
      ∙ ap (λ ys. take m (drop p buf) ++ take n ys) (drop-drop p m (p + m) buf refl)

  pub length-splice :
      (buf : List A) (p : ℕ) (xs : List A)
      → p + length xs ≤ length buf
      → length (splice buf p xs) ≡ length buf
  unfolding splice
  length-splice buf p xs h = omega (
    arith,
    length-append (take p buf) (xs ++ drop (p + length xs) buf),
    length-append xs (drop (p + length xs) buf),
    length-take p buf,
    length-drop (p + length xs) buf,
  )

  slice-append_left :
      (xs ys : List A) (q n : ℕ) → q + n ≤ length xs → slice (xs ++ ys) q n ≡ slice xs q n
  unfolding slice
  slice-append_left xs ys q n h =
      ap (take n) (drop-append_le q xs ys (omega arith))
      ∙ take-append_le n (drop q xs) ys (omega (arith, length-drop q xs))

  -- What lies before the write is kept,
  pub slice-splice_before :
      (buf : List A) (p : ℕ) (xs : List A) (q n : ℕ)
      → q + n ≤ p
      → p ≤ length buf
      → slice (splice buf p xs) q n ≡ slice buf q n
  unfolding splice
  slice-splice_before buf p xs q n h hp =
      slice-append_left (take p buf) (xs ++ drop (p + length xs) buf) q n fits
      ∙ sym (slice-append_left (take p buf) (drop p buf) q n fits)
      ∙ ap (λ ys. slice ys q n) (take-append-drop p buf)
    where
      fits : q + n ≤ length (take p buf)
      fits = omega (arith, length-take p buf)

  -- what is written is read back,
  pub slice-splice_at :
      (buf : List A) (p : ℕ) (xs : List A) (n : ℕ)
      → length xs ≡ n
      → p ≤ length buf
      → slice (splice buf p xs) p n ≡ xs
  unfolding slice splice
  slice-splice_at buf p xs n e hp =
      ap (take n) (
        drop-append_ge p 0 (take p buf) (xs ++ drop (p + length xs) buf)
          (omega (arith, length-take p buf)))
      ∙ take-append_eq n xs (drop (p + length xs) buf) e

  -- and what lies behind it is kept.
  pub slice-splice_after :
      (buf : List A) (p : ℕ) (xs : List A) (q n : ℕ)
      → p + length xs ≤ q
      → p + length xs ≤ length buf
      → slice (splice buf p xs) q n ≡ slice buf q n
  unfolding slice splice
  slice-splice_after buf p xs q n h hb = ap (take n) (
      drop-append_ge q (q - p) (take p buf) (xs ++ drop (p + length xs) buf)
        (omega (arith, length-take p buf))
      ∙ drop-append_ge (q - p) (q - p - length xs) xs (drop (p + length xs) buf) (omega arith)
      ∙ drop-drop (p + length xs) (q - p - length xs) q buf (omega arith))

  -- A slice that ends with what was written.
  pub slice-splice_end :
      (buf : List A) (p : ℕ) (xs : List A) (q m n k : ℕ)
      → q + m ≡ p
      → length xs ≡ n
      → k ≡ m + n
      → p ≤ length buf
      → slice (splice buf p xs) q k ≡ slice buf q m ++ xs
  slice-splice_end buf p xs q m n k e en ek hp =
      slice_add (splice buf p xs) q m n k ek
      ∙ ap₂ ◌++◌ (slice-splice_before buf p xs q m (omega arith) hp)
          (ap (λ j. slice (splice buf p xs) j n) e ∙ slice-splice_at buf p xs n en hp)

  pub slice_eq : (buf : List A) (p q m n : ℕ) → p ≡ q → m ≡ n → slice buf p m ≡ slice buf q n
  slice_eq buf p q m n e f = ap₂ (slice buf) e f
