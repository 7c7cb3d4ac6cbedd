-- ===== src/RingBuffer/Valid.antt =====
-- When a ring is well formed, and what its sizes are then.
use native.Mathlib.Nat.{mod-eq_of_lt, mod-eq-sub-mod}
use native.Mathlib.Decide.{dec_lt}
use iocpserver.Prelude.{
  ℕ, ◌+◌, ◌-◌, ◌⊎◌, ◌%◌, ◌^◌, ◌≤◌, ◌<◌, ◌≡◌, leb, if◌then◌else◌, arith, length, length-replicate,
}
use iocpserver.Prelude.Int.{pos, add_size}
use iocpserver.RingBuffer.{RingBuffer, make, clear, get_stored_size, get_free_size}

-- The positions lie in the buffer, and its size is an INT32.
pub record IsValid (r : RingBuffer) : Type 0 where
  pub sized : length r.buffer ≡ r.buffer_size
  pub small : r.buffer_size < 2 ^ 31
  pub read_in : r.read_pos < r.buffer_size
  pub write_in : r.write_pos < r.buffer_size

-- How many bytes a ring holds.
abbrev pub stored : RingBuffer → ℕ
stored r =
    if leb r.read_pos r.write_pos
    then r.write_pos - r.read_pos
    else r.buffer_size - r.read_pos + r.write_pos

pub stored-lt : {r : RingBuffer} → IsValid r → stored r < r.buffer_size
stored-lt v = ground arith

-- The INT32 of `GetStoredSize` is exact.
pub get_stored_size_lem : {r : RingBuffer} → IsValid r → get_stored_size r ≡ pos (stored r)
unfolding get_stored_size
get_stored_size_lem v = ground arith

-- One byte of the buffer is never used.
pub get_free_size_lem :
    {r : RingBuffer} → IsValid r → get_free_size r ≡ pos (r.buffer_size - stored r - 1)
unfolding get_free_size
get_free_size_lem {r} v = rw (get_stored_size_lem v) (ground (arith, stored-lt v))

pub clear-IsValid : {r : RingBuffer} → IsValid r → IsValid (clear r)
unfolding clear
clear-IsValid v = omega arith

pub clear-make-IsValid : (size p w : ℕ) → 0 < size → size < 2 ^ 31 → IsValid (clear (make size p w))
unfolding clear make
clear-make-IsValid size p w h k = omega (arith, length-replicate {A = ℕ} size 0)

-- Where a position ends up when it moves on by at most one round.
pub turn :
    (size p n : ℕ)
    → p < size
    → n ≤ size
    → size < 2 ^ 31
    → add_size p n % size ≡ (if leb size (p + n) then p + n - size else p + n)
turn size p n hp hn hs = elim (dec_lt (p + n) size) [
  | yes below ↦ ground (arith, mod-eq_of_lt {n = p + n} {m = size} below)
  | no round ↦ ground (
    arith,
    mod-eq-sub-mod {n = p + n} {m = size} (omega arith),
    mod-eq_of_lt {n = p + n - size} {m = size} (omega arith),
  )
]

pub order : (a b : ℕ) → (a < b) ⊎ (b ≤ a)
order a b = omega arith
