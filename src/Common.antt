-- ===== src/Common.antt =====
-- The names that every other module shares: the libraries', passed on, and those of the children.
mod Tests
mod Array
mod Calls
mod Bags
mod Guards
pub mod Int
pub mod Int64
pub mod Float
pub mod Text
pub mod Json
pub mod Resources
pub use Tests.*
pub use Calls.*
pub use Bags.*
unfoldable pub use Guards.{and_then}
pub use Guards.{when, when-some, when-true, and_then-some, if-true, and_true}
unfoldable pub use Array.{get_or, swap}
pub use Array.{
  length, get_elem?, set, take, drop, length-append, length-set, length-swap, length-perm,
  get_elem?-get_or, get_or-set, get_or-append, get_or-take, get_or-swap, take-append-get_or,
  set-perm, swap-perm, concat-perm, take-length, drop-length,
}
pub use Prim.Native.Nat.{ℕ, zero, suc, ◌+◌, ◌-◌, ◌*◌, ◌/◌, ◌%◌, ◌^◌, ◌≤◌, ◌<◌}
pub use Prim.Native.String.{String}
pub use mathlib.Core.Path.{◌≡◌, refl, sym, ap, subst, ◌∙◌}
pub use mathlib.Core.Logic.{◌≢◌, ◌↔◌, ◌⊎◌, inl, inr}
pub use mathlib.Core.Bool.{Bool, true, false, not, ◌&&◌, ◌||◌}
pub use mathlib.Core.Option.{Option, none, some}
pub use mathlib.Core.List.{List, [], ◌∷◌, ◌++◌, map, Mem, Perm}
pub use native.Mathlib.Omega.{arith}
unfoldable pub use native.Mathlib.Decide.{ℕ_discrete, dec_lt, dec_le}
