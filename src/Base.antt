-- ===== src/Base.antt =====
-- Names that the modules share: the libraries', passed on, and those of the children.
pub mod Tests
pub mod Lists
pub mod Results
pub mod Texts
pub mod Sorting
pub mod Unique
pub mod Paths
pub mod Stable
pub mod Stripped
pub use Tests.*
pub use Lists.*
pub use Results.*
unfoldable pub use Texts.*
unfoldable pub use Sorting.*
pub use Unique.*
unfoldable pub use Paths.*
pub use Prim.Native.Nat.{ℕ, zero, suc, ◌+◌, ◌-◌, ◌≤◌, ◌<◌}
pub use Prim.Native.String.{String}
pub use mathlib.Core.Path.{◌≡◌, refl, sym, ap, ◌∙◌}
pub use mathlib.Core.Logic.{◌≢◌, ◌↔◌, ◌⊎◌, inl, inr}
pub use mathlib.Core.Bool.{Bool, true, false, not, ◌&&◌, ◌||◌}
pub use mathlib.Core.Option.{Option, none, some}
pub use mathlib.Core.List.{List, [], ◌∷◌, ◌++◌, map}
pub use native.Mathlib.Omega.{arith}
