-- ===== src/Database/Pool.antt =====
-- The claims of the threads on a pool of `n` connections: the workers of DBManager and its health
-- check, interleaved in any order. A claim is in Acquire, where it has yet to look or sleeps on the
-- condition variable, holds a lease, or does neither.
pub mod Claims
pub mod Leases
pub mod Sleepers
pub mod Progress
use iocpserver.Prelude.{ℕ, zero, suc, ◌+◌, ◌<◌, ◌≡◌, ◌≢◌, some, List, []}
use iocpserver.World.{update}
use iocpserver.Database.{acquire, release_conn}

pub data Claim : Type 0 where
  idle : Claim
  waiting : Claim  -- in Acquire, before it looks
  sleeping : Claim  -- in the wait of Acquire
  holding : ℕ → Claim

pub record System : Type 0 where
  pub free : List ℕ
  pub claim : ℕ → Claim

-- m_free as the constructor leaves it.
abbrev pub first_free : ℕ → List ℕ
first_free zero = []
first_free (suc n) = release_conn n (first_free n)

abbrev pub start : ℕ → System
start n = record { free = first_free n; claim = λ i. idle }

-- The claims when the lease of `i` ends: m_free.push_back and notify_one are one step, under the
-- mutex.
abbrev pub given : (ℕ → Claim) → ℕ → ℕ → Claim
given claim i = update claim i idle

-- What a thread does: it calls Acquire, finds no connection free and sleeps, or takes one; its lease
-- ends, and one sleeping thread is woken, if any sleeps.
pub data Move (threads : ℕ) (s : System) : System → Type 0 where
  asks :
      (i : ℕ)
      → i < threads
      → s.claim i ≡ idle
      → Move threads s (record s { claim = update s.claim i waiting })
  sleeps :
      (i : ℕ)
      → i < threads
      → s.claim i ≡ waiting
      → s.free ≡ []
      → Move threads s (record s { claim = update s.claim i sleeping })
  takes :
      (i : ℕ) (rest : List ℕ) (idx : ℕ)
      → i < threads
      → s.claim i ≡ waiting
      → acquire s.free ≡ some (rest, idx)
      → Move threads s (record { free = rest; claim = update s.claim i (holding idx) })
  gives :
      (i : ℕ) (idx : ℕ)
      → i < threads
      → s.claim i ≡ holding idx
      → ((j : ℕ) → j < threads → s.claim j ≢ sleeping)
      → Move threads s (record { free = release_conn idx s.free; claim = given s.claim i })
  gives_to :
      (i : ℕ) (idx : ℕ) (j : ℕ)
      → i < threads
      → s.claim i ≡ holding idx
      → j < threads
      → s.claim j ≡ sleeping
      → Move threads s
          (record { free = release_conn idx s.free; claim = update (given s.claim i) j waiting })

-- And a wait may end though nothing has notified it.
pub data Step (threads : ℕ) (s : System) : System → Type 0 where
  moves : {t : System} → Move threads s t → Step threads s t
  wakes :
      (i : ℕ)
      → i < threads
      → s.claim i ≡ sleeping
      → Step threads s (record s { claim = update s.claim i waiting })

pub data Reach (threads n : ℕ) : System → Type 0 where
  here : Reach threads n (start n)
  next : {s t : System} → Reach threads n s → Step threads s t → Reach threads n t
