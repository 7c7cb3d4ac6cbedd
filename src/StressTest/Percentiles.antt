-- ===== src/StressTest/Percentiles.antt =====
-- Percentiles of StressTest/main.cpp. Round trips are counted in ticks; `std::sort` is the parameter.
-- The index, q * (n - 1) cut to an integer, is computed on the exact quotients.
use iocpserver.Prelude.{ℕ, ◌-◌, ◌*◌, ◌/◌, ◌≤◌, ◌<◌, ◌≡◌, List, [], ◌∷◌, length, get_or, arith}

module _ (sort : List ℕ → List ℕ) where
  unfoldable pub pick : List ℕ → ℕ → ℕ → ℕ
  pick v num den = get_or (sort v) (num * (length (sort v) - 1) / den) 0

  unfoldable pub percentiles : List ℕ → ℕ × ℕ
  unfolding pick
  percentiles [] = (0, 0)
  percentiles (x ∷ xs) = (pick (x ∷ xs) 1 2, pick (x ∷ xs) 19 20)

-- A list whose elements do not fall.
pub IsSorted : List ℕ → Type 0
IsSorted xs = (i j : ℕ) → i ≤ j → j < length xs → get_or xs i 0 ≤ get_or xs j 0

-- Of a sort that keeps the length and sorts, the second percentile is not below the first.
pub percentiles_le :
    (sort : List ℕ → List ℕ)
    → ((xs : List ℕ) → IsSorted (sort xs))
    → ((xs : List ℕ) → length (sort xs) ≡ length xs)
    → (xs : List ℕ) → (percentiles sort xs).0 ≤ (percentiles sort xs).1
unfolding percentiles pick IsSorted
percentiles_le sort sorts keeps [] = omega arith
percentiles_le sort sorts keeps (x ∷ xs) =
    sorts (x ∷ xs) (1 * (length (sort (x ∷ xs)) - 1) / 2) (19 * (length (sort (x ∷ xs)) - 1) / 20)
      (omega arith) (omega (arith, keeps (x ∷ xs)))
