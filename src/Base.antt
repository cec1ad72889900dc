-- ===== src/Base.antt =====
-- The names that the other modules share: the libraries', passed on, and those of the children
-- (Boolean tests, lists over the native numbers, text, results, signed integers, files). No code of the repository is
-- modelled here, only what its Rust standard library calls need.
mod Tests
mod Lists
mod Text
mod Decimal
mod TextSplits
mod Outcome
mod Int
mod FileSystem
mod Bytes
mod Words
mod Sorting
pub use Tests.*
pub use Lists.*
pub use Text.*
unfoldable pub use Decimal.*
pub use Outcome.*
pub use Int.*
unfoldable pub use FileSystem.*
unfoldable pub use Bytes.*
pub use Words.*
unfoldable pub use Sorting.*
pub use TextSplits.*
pub use Prim.Native.Nat.{ℕ, zero, suc, ◌+◌, ◌-◌, ◌*◌, ◌/◌, ◌%◌, ◌^◌, ◌≤◌, ◌<◌}
pub use Prim.Native.Char.{Char, code}
pub use Prim.Native.String.{String}
pub use mathlib.Core.Path.{◌≡◌, refl, sym, ap, ◌∙◌}
pub use mathlib.Core.Logic.{◌≢◌, ◌↔◌, ◌⊎◌, inl, inr}
pub use mathlib.Core.Bool.{Bool, true, false, not, ◌&&◌, ◌||◌}
pub use mathlib.Core.Option.{Option, none, some}
pub use mathlib.Core.List.{List, [], ◌∷◌, ◌++◌, map, Memᴰ}
pub use native.Mathlib.Omega.{arith}
pub use text.Mathlib.TextEquality.{eq_iff}
pub use text.Mathlib.TextPositions.{eq_refl}
