-- ===== src/Prelude.antt =====
-- The vocabulary that every module shares: the libraries' names, passed on, Boolean tests on the
-- native numbers, lists measured by them, and integers. No code of the program stands here.
mod Tests
mod Lists
mod Word
mod Try
mod Int
mod Map
mod Sort
pub mod Sorted
pub use Tests.*
pub use Lists.*
pub use Word.*
pub use Try.*
pub use Int.*
unfoldable pub use Map.*
unfoldable pub use Sort.*
pub use Prim.Native.Nat.{ℕ, zero, suc, ◌+◌, ◌-◌, ◌*◌, ◌/◌, ◌%◌, ◌^◌, ◌≤◌, ◌<◌, min, max}
pub use mathlib.Core.Path.{◌≡◌, refl, sym, ap, ap₂, ◌∙◌, subst}
pub use mathlib.Core.Logic.{◌≢◌, ◌↔◌, ◌⊎◌, inl, inr}
pub use mathlib.Core.Bool.{Bool, true, false, not, ◌&&◌, ◌||◌}
pub use mathlib.Core.Option.{Option, none, some}
pub use mathlib.Core.List.{List, [], ◌∷◌, ◌++◌, map, append-nil, append_assoc}
pub use native.Mathlib.Omega.{arith}
