-- ===== src/Database/Pool/Progress.antt =====
-- Claims in Acquire, and the steps that serve them.
use iocpserver.Prelude.{
  ℕ, zero, suc, ◌+◌, ◌≤◌, ◌<◌, ◌≡◌, ◌≢◌, refl, sym, ap, subst, ◌∙◌, inl, inr, List, [], ◌∷◌, ◌++◌,
  length, arith,
}
use iocpserver.RingBuffer.Valid.{order}
use iocpserver.Vector.{unsnoc, unsnoc_lem}
use iocpserver.World.{update, update_self, update_other}
use iocpserver.Database.{acquire, release_conn}
use iocpserver.Database.Pool.{
  Claim, idle, waiting, sleeping, holding, System, given, Move, takes, gives, gives_to, Reach,
}
use iocpserver.Database.Pool.Claims.{sum_of, two_weights-le, sum_of-some}
use iocpserver.Database.Pool.Leases.{holds_any, Reach-IsLeased}
use iocpserver.Database.Pool.Sleepers.{looks, naps, IsServed, napping, one_naps, Reach-IsServed}

-- Some moves, one after the other: no wait ends unless it is notified.
pub data Moves (threads : ℕ) (s : System) : System → Type 0 where
  none_more : Moves threads s s
  then_one : {t u : System} → Moves threads s t → Move threads t u → Moves threads s u

abbrev pub Holds : Claim → Type 0
Holds idle = ⊥
Holds waiting = ⊥
Holds sleeping = ⊥
Holds (holding idx) = Unit {0}

held : (c : Claim) → 0 < holds_any c → (idx : ℕ) × (c ≡ holding idx)
held idle h = absurd (omega arith)
held waiting h = absurd (omega arith)
held sleeping h = absurd (omega arith)
held (holding idx) h = (idx, refl)

looking : (c : Claim) → 0 < looks c → c ≡ waiting
looking idle h = absurd (omega arith)
looking waiting h = refl
looking sleeping h = absurd (omega arith)
looking (holding idx) h = absurd (omega arith)

-- A claim that looks while a connection is free takes one.
take_now :
    (threads i : ℕ) (s : System) (x : ℕ) (xs : List ℕ)
    → i < threads
    → s.claim i ≡ waiting
    → s.free ≡ x ∷ xs
    → (t : System) × (idx : ℕ) × Move threads s t × (t.claim ≡ update s.claim i (holding idx))
take_now threads i s x xs h e f =
    let (rest, idx, last, split) = unsnoc_lem x xs in
    (
      record { free = rest; claim = update s.claim i (holding idx) },
      idx,
      takes i rest idx h e (unfold acquire in ap unsnoc f ∙ last),
      refl,
    )

some_free : (free : List ℕ) (idx : ℕ) → (x : ℕ) × (xs : List ℕ) × (release_conn idx free ≡ x ∷ xs)
unfolding release_conn
some_free [] idx = (idx, [], refl)
some_free (x ∷ xs) idx = (x, xs ++ (idx ∷ []), refl)

module _ (threads : ℕ) where
  -- What a claim comes to.
  abbrev CanHold : System → ℕ → Type 0
  CanHold s i = (t : System) × Moves threads s t × Holds (t.claim i)

  -- The holder gives its connection back, and the sleeping claim that it wakes takes one.
  serve_sleeper :
      (s₀ s : System) (i j idx : ℕ)
      → Moves threads s₀ s
      → i < threads
      → s.claim i ≡ sleeping
      → j < threads
      → s.claim j ≡ holding idx
      → CanHold s₀ i
  serve_sleeper s₀ s i j idx before h e k g =
      let u : System = record {
        free = release_conn idx s.free;
        claim = update (given s.claim j) i waiting;
      } in
      let (x, xs, f) = some_free s.free idx in
      let (t, took, last, same) =
        take_now threads i u x xs h (update_self (given s.claim j) i waiting) f in
      (
        t,
        then_one (then_one before (gives_to j idx i k g h e)) last,
        subst Holds (sym (ap (λ c. c i) same ∙ update_self u.claim i (holding took))) tt,
      )

  -- Or a claim that looks takes it, whether the holder wakes another or nobody sleeps.
  serve_looker :
      (s : System) (i j idx : ℕ)
      → i < threads
      → s.claim i ≡ waiting
      → j < threads
      → s.claim j ≡ holding idx
      → CanHold s i
  serve_looker s i j idx h e k g = elim (order 0 (sum_of naps threads s.claim)) [
    | inl some_nap ↦
        let (m, below, one) = sum_of-some naps threads s.claim some_nap in
        let sleeps_there = napping (s.claim m) one in
        let still : update (given s.claim j) m waiting i ≡ waiting =
          update_other (given s.claim j) m waiting i (λ q. cc (q, e, sleeps_there)) ∙ kept in
        takes_it (update (given s.claim j) m waiting) still
          (gives_to j idx m k g below sleeps_there)
    | inr none_nap ↦
        takes_it (given s.claim j) kept
          (gives j idx k g (λ m below f. one_naps threads m s.claim below f (omega arith)))
  ]
    where
      kept : given s.claim j i ≡ waiting
      kept = update_other s.claim j idle i (λ q. cc (q, e, g)) ∙ e

      takes_it :
          (claim : ℕ → Claim)
          → claim i ≡ waiting
          → Move threads s (record { free = release_conn idx s.free; claim = claim })
          → CanHold s i
      takes_it claim still gave =
          let (x, xs, f) = some_free s.free idx in
          let (t, took, last, same) =
            take_now threads i (record { free = release_conn idx s.free; claim = claim }) x xs h
              still f in
          (
            t,
            then_one (then_one none_more gave) last,
            subst Holds (sym (ap (λ c. c i) same ∙ update_self claim i (holding took))) tt,
          )

  -- With nothing free, some claim holds a connection.
  holder :
      {n : ℕ} {s : System}
      → Reach threads n s
      → 0 < n
      → s.free ≡ []
      → (j : ℕ) × (idx : ℕ) × (j < threads) × (s.claim j ≡ holding idx)
  holder {n} {s} r some_conns f =
      let (j, k, busy) =
        sum_of-some holds_any threads s.claim
          (omega (arith, (Reach-IsLeased r).counted, ap length f, some_conns)) in
      let (idx, g) = held (s.claim j) busy in (j, idx, k, g)

  -- In every state that can be reached, a claim that is in Acquire and has yet to look can hold a
  -- connection after some moves.
  looker_served :
      {n : ℕ} {s : System}
      → Reach threads n s
      → 0 < n
      → (i : ℕ) → i < threads
      → s.claim i ≡ waiting
      → CanHold s i
  looker_served {n} {s} r some_conns i h e = by_free s.free refl
    where
      by_free : (xs : List ℕ) → s.free ≡ xs → CanHold s i
      by_free (x ∷ xs) f =
          let (t, took, last, same) = take_now threads i s x xs h e f in
          (
            t,
            then_one none_more last,
            subst Holds (sym (ap (λ c. c i) same ∙ update_self s.claim i (holding took))) tt,
          )
      by_free [] f = let (j, idx, k, g) = holder r some_conns f in serve_looker s i j idx h e k g

  -- And so can a claim that sleeps: if a connection is free, another claim has yet to look.
  sleeper_served :
      {n : ℕ} {s : System}
      → Reach threads n s
      → 0 < n
      → (i : ℕ) → i < threads
      → s.claim i ≡ sleeping
      → CanHold s i
  sleeper_served {n} {s} r some_conns i h e = by_free s.free refl
    where
      looker :
          (x : ℕ) (xs : List ℕ)
          → s.free ≡ x ∷ xs
          → IsServed threads s
          → (j : ℕ) × (j < threads) × (0 < looks (s.claim j))
      looker x xs f (inl none_there) = absurd (one_naps threads i s.claim h e none_there)
      looker x xs f (inr few) = sum_of-some looks threads s.claim (omega (arith, few, ap length f))

      by_free : (xs : List ℕ) → s.free ≡ xs → CanHold s i
      by_free [] f =
          let (j, idx, k, g) = holder r some_conns f in serve_sleeper s s i j idx none_more h e k g
      by_free (x ∷ xs) f =
          let (j, k, one) = looker x xs f (Reach-IsServed r) in
          let awake = looking (s.claim j) one in
          let (t, took, last, same) = take_now threads j s x xs k awake f in
          serve_sleeper s t i j took (then_one none_more last) h
            (ap (λ c. c i) same
              ∙ update_other s.claim j (holding took) i (λ q. cc (q, e, awake))
              ∙ e)
            k (ap (λ c. c j) same ∙ update_self s.claim j (holding took))

-- A claim in Acquire, whether it has yet to look or sleeps.
abbrev pub IsAsking : Claim → Type 0
IsAsking idle = ⊥
IsAsking waiting = Unit {0}
IsAsking sleeping = Unit {0}
IsAsking (holding idx) = ⊥

-- In every state that can be reached, a thread that is in Acquire, asleep or not, of a pool that is
-- not empty can hold a connection after some steps, in which no wait ends unless it is notified.
pub can_acquire :
    {threads n : ℕ} {s : System}
    → Reach threads n s
    → 0 < n
    → (i : ℕ) → i < threads
    → IsAsking (s.claim i)
    → (t : System) × Moves threads s t × Holds (t.claim i)
can_acquire {threads} {n} {s} r some_conns i h asking = by_claim (s.claim i) refl asking
  where
    by_claim :
        (c : Claim)
        → s.claim i ≡ c
        → IsAsking c
        → (t : System) × Moves threads s t × Holds (t.claim i)
    by_claim idle e a = elim a [ ]
    by_claim (holding idx) e a = elim a [ ]
    by_claim waiting e a = looker_served threads r some_conns i h e
    by_claim sleeping e a = sleeper_served threads r some_conns i h e

abbrev lacks : Claim → ℕ
lacks idle = 1
lacks waiting = 1
lacks sleeping = 1
lacks (holding idx) = 0

lacks-add : (n : ℕ) (f : ℕ → Claim) → sum_of lacks n f + sum_of holds_any n f ≡ n
unfolding sum_of
lacks-add zero f = refl
lacks-add (suc n) f = omega (arith, lacks-add n f, one_of (f n))
  where
    one_of : (c : Claim) → lacks c + holds_any c ≡ 1
    one_of idle = refl
    one_of waiting = refl
    one_of sleeping = refl
    one_of (holding idx) = refl

-- With one thread more than connections, as DBManager has, a thread that must wait because none is
-- free waits alone: every other thread holds one.
pub waits_alone :
    {threads n : ℕ} {s : System}
    → Reach threads n s
    → threads ≤ n + 1
    → s.free ≡ []
    → (i j : ℕ) → i < threads
    → j < threads
    → i ≢ j
    → s.claim i ≡ waiting
    → (idx : ℕ) × (s.claim j ≡ holding idx)
waits_alone {threads} {n} {s} r few f i j h k ne e = by_claim (s.claim j) refl
  where
    both : lacks (s.claim i) + lacks (s.claim j) ≤ 1
    both = omega (
      arith,
      two_weights-le lacks threads i j s.claim h k ne,
      lacks-add threads s.claim,
      (Reach-IsLeased r).counted,
      ap length f,
    )

    by_claim : (c : Claim) → s.claim j ≡ c → (idx : ℕ) × (s.claim j ≡ holding idx)
    by_claim (holding idx) g = (idx, g)
    by_claim idle g = absurd (omega (arith, both, ap lacks e, ap lacks g))
    by_claim waiting g = absurd (omega (arith, both, ap lacks e, ap lacks g))
    by_claim sleeping g = absurd (omega (arith, both, ap lacks e, ap lacks g))
