-- ===== src/Database/Pool/Claims.antt =====
-- Sums over the first threads.
use iocpserver.Prelude.{ℕ, zero, suc, ◌+◌, ◌≤◌, ◌<◌, ◌≡◌, ◌≢◌, refl, ap, ap₂, inl, inr, arith}
use iocpserver.World.{update, update_self, update_other}
use iocpserver.RingBuffer.Valid.{order}

module _ {ℓ} {A : Type ℓ} (weight : A → ℕ) where
  unfoldable pub sum_of : ℕ → (ℕ → A) → ℕ
  sum_of zero f = 0
  sum_of (suc n) f = sum_of n f + weight (f n)

  sum_of-update_out : (n i : ℕ) (f : ℕ → A) (a : A) → n ≤ i → sum_of n (update f i a) ≡ sum_of n f
  unfolding sum_of
  sum_of-update_out zero i f a h = refl
  sum_of-update_out (suc n) i f a h =
      ap₂ ◌+◌ (sum_of-update_out n i f a (omega arith))
        (ap weight (update_other f i a n (omega arith)))

  -- A change at one thread changes the sum by its weight.
  pub sum_of-update :
      (n i : ℕ) (f : ℕ → A) (a : A)
      → i < n
      → sum_of n (update f i a) + weight (f i) ≡ sum_of n f + weight a
  unfolding sum_of
  sum_of-update zero i f a h = absurd (omega arith)
  sum_of-update (suc n) i f a h = elim (order i n) [
    | inl below ↦
        omega (arith, sum_of-update n i f a below, ap weight (update_other f i a n (omega arith)))
    | inr last ↦
        let same : n ≡ i = omega arith in
        omega (
          arith,
          sum_of-update_out n i f a (omega arith),
          ap (λ j. weight (update f i a j)) same,
          ap weight (update_self f i a),
          ap (λ j. weight (f j)) same,
        )
  ]

  pub sum_of-const : (n : ℕ) (a : A) → weight a ≡ 0 → sum_of n (λ i. a) ≡ 0
  unfolding sum_of
  sum_of-const zero a h = refl
  sum_of-const (suc n) a h = omega (arith, sum_of-const n a h, h)

  -- No weight exceeds the sum, nor do two together.
  pub weight-le : (n i : ℕ) (f : ℕ → A) → i < n → weight (f i) ≤ sum_of n f
  unfolding sum_of
  weight-le zero i f h = absurd (omega arith)
  weight-le (suc n) i f h = elim (order i n) [
    | inl below ↦ omega (arith, weight-le n i f below)
    | inr last ↦ let same : i ≡ n = omega arith in omega (arith, ap (λ j. weight (f j)) same)
  ]

  pub two_weights-le :
      (n i j : ℕ) (f : ℕ → A) → i < n → j < n → i ≢ j → weight (f i) + weight (f j) ≤ sum_of n f
  unfolding sum_of
  two_weights-le zero i j f h k ne = absurd (omega arith)
  two_weights-le (suc n) i j f h k ne = elim (order i n) [
    | inl i_below ↦ elim (order j n) [
      | inl j_below ↦ omega (arith, two_weights-le n i j f i_below j_below ne)
      | inr j_last ↦
          let same : j ≡ n = omega arith in
          omega (arith, weight-le n i f i_below, ap (λ x. weight (f x)) same)
    ]
    | inr i_last ↦
        let same : i ≡ n = omega arith in
        let j_below : j < n = elim (order j n) [ inl l ↦ l | inr g ↦ absurd (ne (omega arith)) ] in
        omega (arith, weight-le n j f j_below, ap (λ x. weight (f x)) same)
  ]

  -- A sum that is not zero has a weight that is not.
  pub sum_of-some : (n : ℕ) (f : ℕ → A) → 0 < sum_of n f → (i : ℕ) × (i < n) × (0 < weight (f i))
  unfolding sum_of
  sum_of-some zero f h = absurd (omega arith)
  sum_of-some (suc n) f h = elim (order 0 (weight (f n))) [
    | inl there ↦ (n, omega arith, there)
    | inr none_there ↦
        let (i, below, some_weight) = sum_of-some n f (omega arith) in (i, omega arith, some_weight)
  ]
