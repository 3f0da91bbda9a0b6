-- ===== src/Prelude.antt =====
-- The names that the other modules share: the libraries', passed on, and those of the children.
mod Tests
mod Lists
mod Tables
mod Bits
mod Results
mod Bytes
pub mod Chain
pub use Tests.*
pub use Lists.*
pub use Bits.*
pub use Results.*
pub use Tables.{Table, get-insert, get-insert_self, get-insert_ne, contains-add}
unfoldable pub use Tables.{get, insert, remove, contains, add}
pub use Bytes.{
  Memory, length-to_le, from_le-to_le, store_outside, load_same, load_outside, load-store,
  stride_gap, ring_distinct,
}
unfoldable pub use Bytes.{store, load, to_le, from_le}
pub use Prim.Native.Nat.{ℕ, zero, suc, ◌+◌, ◌-◌, ◌*◌, ◌/◌, ◌%◌, ◌^◌, ◌≤◌, ◌<◌, bit_and, bit_or, min}
pub use Prim.Native.String.{String}
pub use mathlib.Core.Path.{◌≡◌, refl, sym, ap, subst, ◌∙◌}
pub use mathlib.Core.Logic.{◌≢◌, ◌↔◌, ◌⊎◌, inl, inr}
pub use mathlib.Core.Bool.{Bool, true, false, not, ◌&&◌, ◌||◌}
pub use mathlib.Core.Option.{Option, none, some}
pub use mathlib.Core.List.{List, [], ◌∷◌, ◌++◌, map, reverse, Memᴰ}
pub use native.Mathlib.Omega.{arith}
