-- ===== src/Database/Pool/Leases.antt =====
-- No connection is leased twice or lost.
use iocpserver.Prelude.{
  ℕ, zero, suc, ◌+◌, ◌<◌, ◌≡◌, ◌≢◌, refl, sym, ap, ◌∙◌, inl, inr, some, List, [], ◌∷◌, ◌++◌, length,
  length-append, arith, ltb, ◌==◌, ==_refl, ==_iff, if◌then◌else◌, false, Bool-cases,
}
use mathlib.Core.Option.{some-injective}
use iocpserver.World.{update, update_other}
use iocpserver.Vector.{unsnoc, occurs, occurs-append, unsnoc_lem}
use iocpserver.Database.{acquire, release_conn}
use iocpserver.Database.Pool.{
  Claim, idle, waiting, sleeping, holding, System, first_free, start, given, Move, asks, sleeps,
  takes, gives, gives_to, Step, moves, wakes, Reach, here, next,
}
use iocpserver.Database.Pool.Claims.{sum_of, sum_of-update, sum_of-const, two_weights-le}

-- Whether a claim holds the connection `idx`, and whether it holds any.
abbrev pub holds : ℕ → Claim → ℕ
holds idx idle = 0
holds idx waiting = 0
holds idx sleeping = 0
holds idx (holding j) = if j == idx then 1 else 0

abbrev pub holds_any : Claim → ℕ
holds_any idle = 0
holds_any waiting = 0
holds_any sleeping = 0
holds_any (holding j) = 1

-- Each of the `n` connections is free or leased, and once; there is no other.
pub record IsLeased (threads n : ℕ) (s : System) : Type 0 where
  pub once :
      (idx : ℕ)
      → occurs idx s.free + sum_of (holds idx) threads s.claim ≡ (if ltb idx n then 1 else 0)
  pub counted : length s.free + sum_of holds_any threads s.claim ≡ n

single : (j idx : ℕ) → occurs idx (j ∷ []) ≡ (if j == idx then 1 else 0)
unfolding occurs
single j idx = omega arith

occurs-first : (n idx : ℕ) → occurs idx (first_free n) ≡ (if ltb idx n then 1 else 0)
unfolding release_conn
occurs-first zero idx = unfold occurs in ground arith
occurs-first (suc n) idx =
    ground (arith, occurs-append idx (first_free n) (n ∷ []), single n idx, occurs-first n idx)

length-first : (n : ℕ) → length (first_free n) ≡ n
unfolding release_conn
length-first zero = refl
length-first (suc n) = omega (arith, length-append (first_free n) (n ∷ []), length-first n)

start-IsLeased : (threads n : ℕ) → IsLeased threads n (start n)
start-IsLeased threads n = record {
  once = λ idx. omega (arith, occurs-first n idx, sum_of-const (holds idx) threads idle refl);
  counted = omega (arith, length-first n, sum_of-const holds_any threads idle refl);
}

-- What Acquire takes is the last of the free ones.
pub acquired :
    (free rest : List ℕ) (idx : ℕ) → acquire free ≡ some (rest, idx) → free ≡ rest ++ (idx ∷ [])
unfolding acquire
acquired [] rest idx e = absurd (unfold unsnoc in cc e)
acquired (x ∷ xs) rest idx e =
    let (ys, y, last, split) = unsnoc_lem x xs in
    split ∙ ap (λ (q : List ℕ × ℕ). q.0 ++ (q.1 ∷ [])) (some-injective _ _ (sym last ∙ e))

-- A claim that held nothing, and still holds nothing.
unheld :
    {threads n : ℕ} {s : System} (i : ℕ) (c d : Claim)
    → i < threads
    → s.claim i ≡ c
    → ((idx : ℕ) → holds idx c ≡ holds idx d)
    → holds_any c ≡ holds_any d
    → IsLeased threads n s
    → IsLeased threads n (record s { claim = update s.claim i d })
unheld {threads} {n} {s} i c d lt e same same_any l = record {
  once = λ idx. omega (
    arith,
    l.once idx,
    sum_of-update (holds idx) threads i s.claim d lt,
    ap (holds idx) e,
    same idx,
  );
  counted =
      omega (
        arith,
        l.counted,
        sum_of-update holds_any threads i s.claim d lt,
        ap holds_any e,
        same_any,
      );
}

given-IsLeased :
    {threads n : ℕ} {s : System} (i j : ℕ)
    → i < threads
    → s.claim i ≡ holding j
    → IsLeased threads n s
    → IsLeased threads n (record { free = release_conn j s.free; claim = given s.claim i })
unfolding release_conn
given-IsLeased {threads} {n} {s} i j lt e l = record {
  once = λ idx. omega (
    arith,
    l.once idx,
    sum_of-update (holds idx) threads i s.claim idle lt,
    ap (holds idx) e,
    occurs-append idx s.free (j ∷ []),
    single j idx,
  );
  counted = omega (
    arith,
    l.counted,
    sum_of-update holds_any threads i s.claim idle lt,
    ap holds_any e,
    length-append s.free (j ∷ []),
  );
}

-- Another thread's claim stands while a lease ends.
pub given-other :
    (claim : ℕ → Claim) (i idx j : ℕ)
    → claim i ≡ holding idx
    → claim j ≡ sleeping
    → given claim i j ≡ sleeping
given-other claim i idx j e f = update_other claim i idle j (λ q. cc (q, e, f)) ∙ f

pub Move-IsLeased :
    {threads n : ℕ} {s t : System} → Move threads s t → IsLeased threads n s → IsLeased threads n t
Move-IsLeased (asks i lt e) l = unheld i idle waiting lt e (λ idx. refl) refl l
Move-IsLeased (sleeps i lt e f) l = unheld i waiting sleeping lt e (λ idx. refl) refl l
Move-IsLeased {threads} {n} {s} (takes i rest j lt e f) l = record {
  once = λ idx. omega (
    arith,
    l.once idx,
    sum_of-update (holds idx) threads i s.claim (holding j) lt,
    ap (holds idx) e,
    ap (occurs idx) (acquired s.free rest j f),
    occurs-append idx rest (j ∷ []),
    single j idx,
  );
  counted = omega (
    arith,
    l.counted,
    sum_of-update holds_any threads i s.claim (holding j) lt,
    ap holds_any e,
    ap length (acquired s.free rest j f),
    length-append rest (j ∷ []),
  );
}
Move-IsLeased (gives i idx lt e alone) l = given-IsLeased i idx lt e l
Move-IsLeased {threads} {n} {s} (gives_to i idx j lt e below f) l =
    unheld j sleeping waiting below (given-other s.claim i idx j e f) (λ idx. refl) refl
      (given-IsLeased i idx lt e l)

-- Every step keeps this.
pub Step-IsLeased :
    {threads n : ℕ} {s t : System} → Step threads s t → IsLeased threads n s → IsLeased threads n t
Step-IsLeased (moves m) l = Move-IsLeased m l
Step-IsLeased (wakes i lt e) l = unheld i sleeping waiting lt e (λ idx. refl) refl l

-- However the threads ask for, take and give back connections: each connection of the pool is free or
-- leased, and once, and there is no other.
pub Reach-IsLeased : {threads n : ℕ} {s : System} → Reach threads n s → IsLeased threads n s
Reach-IsLeased {threads} {n} here = start-IsLeased threads n
Reach-IsLeased (next r st) = Step-IsLeased st (Reach-IsLeased r)

-- Two threads never hold the same connection.
pub lease_exclusive :
    {threads n : ℕ} {s : System}
    → Reach threads n s
    → (i j idx : ℕ) → i < threads
    → j < threads
    → s.claim i ≡ holding idx
    → s.claim j ≡ holding idx
    → i ≡ j
lease_exclusive {threads} {n} {s} r i j idx h k e f = elim (Bool-cases (i == j)) [
  | inl same ↦ (==_iff i j).0 same
  | inr other ↦ absurd (
      ground (
        arith,
        two_weights-le (holds idx) threads i j s.claim h k (differ other),
        (Reach-IsLeased r).once idx,
        ap (holds idx) e,
        ap (holds idx) f,
        ==_refl idx,
      ))
]
  where
    differ : (i == j) ≡ false → i ≢ j
    differ other q = cc (sym other, ap (λ x. x == j) q, ==_refl j)
