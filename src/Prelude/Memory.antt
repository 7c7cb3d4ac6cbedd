-- ===== src/Prelude/Memory.antt =====
-- memcpy out of and into a byte array; `none` is an access outside an object, which C++ leaves
-- undefined.
use Prim.Native.Nat.{ℕ, ◌+◌, ◌≤◌, ◌<◌}
use mathlib.Core.Path.{◌≡◌}
use mathlib.Core.Bool.{◌&&◌}
use mathlib.Core.List.{List}
use mathlib.Core.Option.{Option, none, some}
use native.Mathlib.Omega.{arith}
use iocpserver.Prelude.Tests.{leb, if◌then◌else◌}
use iocpserver.Prelude.Lists.{length, take}
use iocpserver.Prelude.Slices.{slice, splice}

-- memcpy(out, &buf[p], n)
unfoldable pub copy_out : List ℕ → ℕ → ℕ → Option (List ℕ)
copy_out buf p n = if leb (p + n) (length buf) then some (slice buf p n) else none

-- memcpy(&buf[p], src, n)
unfoldable pub copy_in : List ℕ → ℕ → List ℕ → ℕ → Option (List ℕ)
copy_in buf p src n =
    if leb (p + n) (length buf) && leb n (length src)
    then some (splice buf p (take n src))
    else none

pub copy_out_lem :
    (buf : List ℕ) (p n : ℕ) → p + n ≤ length buf → copy_out buf p n ≡ some (slice buf p n)
unfolding copy_out
copy_out_lem buf p n h = ground arith

pub copy_in_lem :
    (buf : List ℕ) (p : ℕ) (src : List ℕ) (n : ℕ)
    → p + n ≤ length buf
    → n ≤ length src
    → copy_in buf p src n ≡ some (splice buf p (take n src))
unfolding copy_in
copy_in_lem buf p src n h k = ground arith

pub copy_out_past : (buf : List ℕ) (p n : ℕ) → length buf < p + n → copy_out buf p n ≡ none
unfolding copy_out
copy_out_past buf p n h = ground arith
