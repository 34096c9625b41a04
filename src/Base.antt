-- ===== src/Base.antt =====
-- What the models share: the libraries' names, Boolean tests and lists over the native numbers, Go's
-- signed integers, byte strings, and the results of fallible functions.
mod Tests
mod Lists
mod Int
mod ByteStrings
mod Sets
mod Maps
mod Errors
mod Slices
pub use Tests.*
pub use Lists.*
unfoldable pub use Int.*
unfoldable pub use ByteStrings.*
unfoldable pub use Sets.*
unfoldable pub use Maps.*
pub use Errors.*
pub use Slices.*
pub use Prim.Native.Nat.{ℕ, zero, suc, ◌+◌, ◌-◌, ◌*◌, ◌/◌, ◌%◌, ◌^◌, ◌≤◌, ◌<◌}
pub use mathlib.Core.Path.{◌≡◌, refl, sym, ap, ◌∙◌}
pub use mathlib.Core.Logic.{◌≢◌, ◌↔◌, ◌⊎◌, inl, inr}
pub use mathlib.Core.Bool.{Bool, true, false, not, ◌&&◌, ◌||◌}
pub use mathlib.Core.Option.{Option, none, some}
pub use mathlib.Core.List.{List, [], ◌∷◌, ◌++◌, map, append_assoc, append-nil}
pub use native.Mathlib.Omega.{arith}
