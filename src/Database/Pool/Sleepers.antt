-- ===== src/Database/Pool/Sleepers.antt =====
-- The claims that sleep, and the connections that are free meanwhile.
use iocpserver.Prelude.{
  ℕ, ◌+◌, ◌≤◌, ◌<◌, ◌≡◌, ◌≢◌, refl, ap, ◌⊎◌, inl, inr, [], ◌∷◌, length, length-append, arith,
}
use iocpserver.World.{update}
use iocpserver.RingBuffer.Valid.{order}
use iocpserver.Database.{release_conn}
use iocpserver.Database.Pool.{
  Claim, idle, waiting, sleeping, holding, System, given, Move, asks, sleeps, takes, gives,
  gives_to, moves, wakes, Reach, here, next,
}
use iocpserver.Database.Pool.Claims.{sum_of, sum_of-update, sum_of-const, sum_of-some, weight-le}
use iocpserver.Database.Pool.Leases.{acquired, given-other}

-- Whether a claim sleeps, and whether it has yet to look.
abbrev pub naps : Claim → ℕ
naps idle = 0
naps waiting = 0
naps sleeping = 1
naps (holding idx) = 0

abbrev pub looks : Claim → ℕ
looks idle = 0
looks waiting = 1
looks sleeping = 0
looks (holding idx) = 0

-- While a claim sleeps, there are not more connections free than claims that have yet to look.
abbrev pub IsServed : ℕ → System → Type 0
IsServed threads s =
    (sum_of naps threads s.claim ≡ 0) ⊎ (length s.free ≤ sum_of looks threads s.claim)

pub napping : (c : Claim) → 0 < naps c → c ≡ sleeping
napping idle h = absurd (omega arith)
napping waiting h = absurd (omega arith)
napping sleeping h = refl
napping (holding idx) h = absurd (omega arith)

none_nap :
    (threads : ℕ) (claim : ℕ → Claim)
    → ((j : ℕ) → j < threads → claim j ≢ sleeping)
    → sum_of naps threads claim ≡ 0
none_nap threads claim alone = elim (order 0 (sum_of naps threads claim)) [
  | inl some_nap ↦
      let (j, below, one) = sum_of-some naps threads claim some_nap in
      absurd (alone j below (napping (claim j) one))
  | inr none_there ↦ omega arith
]

pub one_naps :
    (threads i : ℕ) (claim : ℕ → Claim)
    → i < threads
    → claim i ≡ sleeping
    → sum_of naps threads claim ≢ 0
one_naps threads i claim lt e none_there =
    omega (arith, weight-le naps threads i claim lt, ap naps e, none_there)

module _ (threads : ℕ) (s : System) (i : ℕ) (lt : i < threads) (c : Claim) (e : s.claim i ≡ c) where
  naps-update :
      (d : Claim)
      → sum_of naps threads (update s.claim i d) + naps c ≡ sum_of naps threads s.claim + naps d
  naps-update d = omega (arith, sum_of-update naps threads i s.claim d lt, ap naps e)

  looks-update :
      (d : Claim)
      → sum_of looks threads (update s.claim i d) + looks c ≡ sum_of looks threads s.claim + looks d
  looks-update d = omega (arith, sum_of-update looks threads i s.claim d lt, ap looks e)

woken-IsServed :
    (threads : ℕ) (s : System) (i : ℕ)
    → i < threads
    → s.claim i ≡ sleeping
    → IsServed threads s
    → length s.free + 1 ≤ sum_of looks threads (update s.claim i waiting)
woken-IsServed threads s i lt e (inl none_there) =
    absurd (one_naps threads i s.claim lt e none_there)
woken-IsServed threads s i lt e (inr few) =
    omega (arith, few, looks-update threads s i lt sleeping e waiting)

Move-IsServed :
    {threads : ℕ} {s t : System} → Move threads s t → IsServed threads s → IsServed threads t
Move-IsServed {threads} {s} (asks i lt e) (inl none_there) =
    inl (omega (arith, none_there, naps-update threads s i lt idle e waiting))
Move-IsServed {threads} {s} (asks i lt e) (inr few) =
    inr (omega (arith, few, looks-update threads s i lt idle e waiting))
Move-IsServed (sleeps i lt e f) v = inr (omega (arith, ap length f))
Move-IsServed {threads} {s} (takes i rest idx lt e f) (inl none_there) =
    inl (omega (arith, none_there, naps-update threads s i lt waiting e (holding idx)))
Move-IsServed {threads} {s} (takes i rest idx lt e f) (inr few) = inr (
    omega (
      arith,
      few,
      looks-update threads s i lt waiting e (holding idx),
      ap length (acquired s.free rest idx f),
      length-append rest (idx ∷ []),
    ))
Move-IsServed {threads} {s} (gives i idx lt e alone) v =
    inl (
      omega
        (arith, none_nap threads s.claim alone, naps-update threads s i lt (holding idx) e idle))
Move-IsServed {threads} {s} (gives_to i idx j lt e below f) v = inr (
    unfold release_conn in
    omega (
      arith,
      length-append s.free (idx ∷ []),
      woken-IsServed threads s j below f v,
      looks-update threads s j below sleeping f waiting,
      looks-update threads s i lt (holding idx) e idle,
      looks-update threads (record s { claim = given s.claim i }) j below sleeping
          (given-other s.claim i idx j e f) waiting,
    ))

-- In every state that can be reached, while a claim sleeps there are not more connections free than
-- claims that have yet to look: no free connection is forgotten.
pub Reach-IsServed : {threads n : ℕ} {s : System} → Reach threads n s → IsServed threads s
Reach-IsServed {threads} here = inl (sum_of-const naps threads idle refl)
Reach-IsServed (next r (moves m)) = Move-IsServed m (Reach-IsServed r)
Reach-IsServed {threads} (next {s} r (wakes i lt e)) =
    inr (omega (arith, woken-IsServed threads s i lt e (Reach-IsServed r)))
