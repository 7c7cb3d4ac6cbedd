-- ===== src/DbConfig/Bounds.antt =====
-- The settings that the database threads start with.
use iocpserver.Prelude.{ℕ, ◌≤◌, ◌≡◌, inl, inr, true, some, arith}
use iocpserver.Prelude.Int.{ℤ, pos, negsuc, ltb_ℤ, pos_lt, pos_ge}
use iocpserver.RingBuffer.Valid.{order}
use iocpserver.DbConfig.{DbConfig, Ini, at_least, at_most, apply_defaults, load}

-- A number from `low` to `high`.
abbrev pub IsWithin : ℕ → ℕ → ℤ → Type 0
IsWithin low high (pos n) = (low ≤ n) × (n ≤ high)
IsWithin low high (negsuc n) = ⊥

bounded :
    (low other high : ℕ) (n : ℤ)
    → low ≤ other
    → other ≤ high
    → IsWithin low high (at_most (pos high) (at_least (pos low) (pos other) n))
unfolding at_least at_most
bounded low other high (pos n) h k = elim (order n low) [
  | inl below ↦ rw (pos_lt n low below, pos_ge high other k) (h, k)
  | inr above ↦ rw (pos_ge n low above) (elim (order high n) [
    | inl over ↦ rw (pos_lt high n over) (omega (arith, h, k), omega arith)
    | inr within ↦ rw (pos_ge high n within) (above, within)
  ])
]
bounded low other high (negsuc n) h k = rw (below, pos_ge high other k) (h, k)
  where
    below : ltb_ℤ (negsuc n) (pos low) ≡ true
    below = ground arith

-- After a load of a file that is there, whatever it holds, the pool has 1 to 64 connections, the
-- health check comes every 1 to 3600 seconds and a query has 1 to 120 seconds.
pub load-IsWithin :
    (ini : Ini) (c : DbConfig)
    → let (ok, c') = load (some ini) c in
      IsWithin 1 64 c'.pool_size
      × IsWithin 1 3600 c'.health_sec
      × IsWithin 1 120 c'.query_timeout_sec
unfolding load apply_defaults
load-IsWithin ini c = (
  bounded 1 1 64 ini.pool_size (omega arith) (omega arith),
  bounded 1 5 3600 ini.health_sec (omega arith) (omega arith),
  bounded 1 1 120 ini.query_timeout_sec (omega arith) (omega arith),
)
