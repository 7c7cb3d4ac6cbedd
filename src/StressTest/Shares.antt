-- ===== src/StressTest/Shares.antt =====
-- The sockets that the threads get.
use iocpserver.Prelude.{
  ℕ, ◌+◌, ◌%◌, ◌≤◌, ◌<◌, ◌≡◌, refl, sym, ap, ◌∙◌, inl, inr, List, [], ◌∷◌, ◌++◌, length,
  length-append, arith, ◌==◌, Bool-cases, ==_iff,
}
use native.Mathlib.Nat.{mod-lt, mod-eq_of_lt}
use iocpserver.Prelude.Int.{ℤ}
use iocpserver.World.{update, update_self}
use iocpserver.Vector.{occurs, occurs-append}
use iocpserver.Database.Pool.Claims.{sum_of, sum_of-update, sum_of-const}
use iocpserver.StressTest.{thread_count, fill_buckets, buckets_of}

fill_buckets-occurs :
    (p n i : ℕ) (b : ℕ → List ℕ) (sockets : List ℕ)
    → 0 < n
    → sum_of (occurs p) n (fill_buckets n i b sockets) ≡ sum_of (occurs p) n b + occurs p sockets
unfolding fill_buckets occurs
fill_buckets-occurs p n i b [] h = omega arith
fill_buckets-occurs p n i b (s ∷ sockets) h = omega (
  arith,
  fill_buckets-occurs p n (i + 1) (update b (i % n) (b (i % n) ++ (s ∷ []))) sockets h,
  sum_of-update (occurs p) n (i % n) b (b (i % n) ++ (s ∷ [])) (mod-lt i h),
  occurs-append p (b (i % n)) (s ∷ []),
)

-- A bucket only grows.
longer : (b : ℕ → List ℕ) (k s j : ℕ) → length (b j) ≤ length (update b k (b k ++ (s ∷ [])) j)
longer b k s j = elim (Bool-cases (j == k)) [
  | inl same ↦
      rw same
        (omega (arith, ap (λ x. length (b x)) ((==_iff j k).0 same), length-append (b k) (s ∷ [])))
  | inr other ↦ rw other (omega arith)
]

fill_buckets-longer :
    (n i : ℕ) (b : ℕ → List ℕ) (sockets : List ℕ) (j : ℕ)
    → length (b j) ≤ length (fill_buckets n i b sockets j)
unfolding fill_buckets
fill_buckets-longer n i b [] j = omega arith
fill_buckets-longer n i b (s ∷ sockets) j = omega (
  arith,
  fill_buckets-longer n (i + 1) (update b (i % n) (b (i % n) ++ (s ∷ []))) sockets j,
  longer b (i % n) s j,
)

fill_buckets-reaches :
    (n i : ℕ) (b : ℕ → List ℕ) (sockets : List ℕ) (j : ℕ)
    → j < n
    → i ≤ j
    → j < i + length sockets
    → 0 < length (fill_buckets n i b sockets j)
unfolding fill_buckets
fill_buckets-reaches n i b [] j h k l = absurd (omega arith)
fill_buckets-reaches n i b (s ∷ sockets) j h k l = elim (Bool-cases (i == j)) [
  | inl now ↦ omega (
    arith,
    fill_buckets-longer n (i + 1) (update b (i % n) (b (i % n) ++ (s ∷ []))) sockets j,
    here ((==_iff i j).0 now),
  )
  | inr later ↦
      fill_buckets-reaches n (i + 1) (update b (i % n) (b (i % n) ++ (s ∷ []))) sockets j h
        (ground arith) (omega arith)
]
  where
    small : i ≡ j → i % n ≡ j
    small e = mod-eq_of_lt (omega (arith, e)) ∙ e

    here : i ≡ j → 0 < length (update b (i % n) (b (i % n) ++ (s ∷ [])) j)
    here e = omega (
      arith,
      ap length (
          ap (update b (i % n) (b (i % n) ++ (s ∷ []))) (sym (small e))
          ∙ update_self b (i % n) (b (i % n) ++ (s ∷ []))),
      length-append (b (i % n)) (s ∷ []),
    )

-- With a socket connected there is at least one thread, and each gets at least one socket; every
-- socket goes to one thread, and is there as often as it is among the sockets.
pub buckets_shared :
    (asked : ℤ) (hardware : ℕ) (sockets : List ℕ)
    → 0 < length sockets
    → (0 < thread_count asked hardware (length sockets))
      × ((j : ℕ)
          → j < thread_count asked hardware (length sockets)
          → 0 < length (buckets_of (thread_count asked hardware (length sockets)) sockets j))
      × ((p : ℕ)
          → sum_of
              (occurs p)
              (thread_count asked hardware (length sockets))
              (buckets_of (thread_count asked hardware (length sockets)) sockets)
            ≡ occurs p sockets)
unfolding buckets_of
buckets_shared asked hardware sockets h = (
  some_threads,
  λ j k. fill_buckets-reaches _ 0 (λ k. []) sockets j k (omega arith) (omega (arith, few_threads)),
  λ p. fill_buckets-occurs p _ 0 (λ k. []) sockets some_threads ∙ none_yet p,
)
  where
    count : ℕ
    count = thread_count asked hardware (length sockets)

    some_threads : 0 < count
    some_threads = unfold thread_count in ground arith

    few_threads : count ≤ length sockets
    few_threads = unfold thread_count in ground arith

    none_yet : (p : ℕ) → sum_of (occurs p) count (λ k. []) + occurs p sockets ≡ occurs p sockets
    none_yet p = omega (arith, sum_of-const (occurs p) count [] (unfold occurs in refl))
