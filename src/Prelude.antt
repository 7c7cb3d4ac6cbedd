-- ===== src/Prelude.antt =====
-- The names that the other modules share: the libraries', passed on, and those of the children.
mod Tests
mod Lists
mod Slices
mod Memory
pub mod Int
pub use Tests.*
pub use Lists.*
unfoldable pub use Slices.{slice, splice}
pub use Slices.{
  length-slice, slice-zero, slice_add, length-splice, slice-splice_before, slice-splice_at,
  slice-splice_after, slice-splice_end, slice_eq,
}
unfoldable pub use Memory.{copy_in, copy_out}
pub use Memory.{copy_in_lem, copy_out_lem, copy_out_past}
pub use Prim.Native.Nat.{ℕ, zero, suc, ◌+◌, ◌-◌, ◌*◌, ◌/◌, ◌%◌, ◌^◌, ◌≤◌, ◌<◌, min}
pub use mathlib.Core.Path.{◌≡◌, refl, sym, ap, ap₂, subst, ◌∙◌}
pub use mathlib.Core.Logic.{◌≢◌, ◌↔◌, ◌⊎◌, inl, inr}
pub use mathlib.Core.Bool.{Bool, true, false, not, ◌&&◌, ◌||◌}
pub use mathlib.Core.Option.{Option, none, some}
pub use mathlib.Core.List.{List, [], ◌∷◌, ◌++◌, map, append-nil, append_assoc}
pub use native.Mathlib.Omega.{arith}
