-- ===== src/Common.antt =====
-- What the other modules share: library names passed on, Boolean tests on the native numbers, lists,
-- JavaScript numbers (`Common.Number`), a concrete model of them (`Common.Fixed`), and calls of
-- services with the record of what was called (`Common.Calls`).
mod Tests
mod Lists
pub mod Number
pub mod Fixed
pub mod Calls
pub mod OrderedMap
pub mod JsValue
pub use Tests.*
pub use Lists.*
pub use Prim.Native.Nat.{ℕ, zero, suc, ◌+◌, ◌-◌, ◌*◌, ◌/◌, ◌%◌, ◌^◌, ◌≤◌, ◌<◌}
pub use Prim.Native.String.{String}
pub use mathlib.Core.Path.{◌≡◌, refl, sym, ap, ◌∙◌}
pub use mathlib.Core.Logic.{◌≢◌, ◌↔◌, ◌⊎◌, inl, inr}
pub use mathlib.Core.Bool.{Bool, true, false, not, ◌&&◌, ◌||◌}
pub use mathlib.Core.Option.{Option, none, some}
pub use mathlib.Core.List.{List, [], ◌∷◌, ◌++◌, map}
pub use native.Mathlib.Omega.{arith}
