-- ===== src/Common.antt =====
-- What the other modules share: the libraries' names, tests on numbers and byte strings, lists
-- measured by native numbers, signed integers, errors and results. The Go types modelled here are
-- `bool` tests, `[]byte` and `string` (both lists of numbers below 256), `int64` and `error`.
mod Tests
mod Lists
mod Results
pub mod Signed
pub mod Action
unfoldable pub use Tests.{codes}
pub use Tests.*
pub use Lists.*
pub use Results.*
pub use Prim.Native.Nat.{ℕ, zero, suc, ◌+◌, ◌-◌, ◌*◌, ◌/◌, ◌%◌, ◌^◌, ◌≤◌, ◌<◌}
pub use mathlib.Core.Path.{◌≡◌, refl, sym, ap, ◌∙◌}
pub use mathlib.Core.Logic.{◌≢◌, ◌↔◌, ◌⊎◌, inl, inr}
pub use mathlib.Core.Bool.{Bool, true, false, ◌&&◌, ◌||◌, not}
pub use mathlib.Core.Option.{Option, none, some}
pub use mathlib.Core.List.{List, [], ◌∷◌, ◌++◌, append-nil, append_assoc}
pub use native.Mathlib.Omega.{arith}
