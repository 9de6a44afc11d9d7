-- ===== src/Prelude.antt =====
-- The names that the other modules share: those of the libraries, passed on, the Boolean tests on
-- numbers, lists and arrays, C integers, and the result of a piece of kernel code.
mod Tests
mod Lists
mod Int
mod Arrays
mod Results
pub use Tests.*
pub use Lists.*
pub use Int.*
pub use Arrays.*
pub use Results.*
pub use Prim.Native.Nat.{
  ℕ, zero, suc, ◌+◌, ◌-◌, ◌*◌, ◌/◌, ◌%◌, ◌^◌, ◌≤◌, ◌<◌, min, max, bit_and, bit_or,
}
pub use mathlib.Core.Path.{◌≡◌, refl, sym, ap, ◌∙◌, fun_ext}
pub use mathlib.Core.Logic.{◌≢◌, ◌↔◌, ◌⊎◌, inl, inr}
pub use mathlib.Core.Bool.{Bool, true, false, not, ◌&&◌, ◌||◌}
pub use mathlib.Core.Option.{Option, none, some}
pub use mathlib.Core.List.{List, [], ◌∷◌, ◌++◌, map}
pub use native.Mathlib.Omega.{arith}
