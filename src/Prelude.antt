-- ===== src/Prelude.antt =====
-- Names that the components share: those of the libraries, passed on, and those of the children.
mod Tests
mod Lists
mod Equality
mod Bytes
pub mod Bits
pub mod Int
pub mod Text
pub mod Members
pub use Tests.*
pub use Lists.*
pub use Bytes.*
pub use Equality.*
pub use Prim.Native.Nat.{ℕ, zero, suc, ◌+◌, ◌-◌, ◌*◌, ◌/◌, ◌%◌, ◌^◌, ◌≤◌, ◌<◌, min}
pub use Prim.Native.String.{String, ◌++◌ as ◌<>◌}
pub use mathlib.Core.Path.{◌≡◌, refl, sym, ap, subst, ◌∙◌}
pub use mathlib.Core.Logic.{◌≢◌, ◌↔◌, ◌⊎◌, inl, inr}
pub use mathlib.Core.Bool.{Bool, true, false, not, ◌&&◌, ◌||◌}
pub use mathlib.Core.Option.{Option, none, some}
pub use mathlib.Core.List.{List, [], ◌∷◌, ◌++◌, map, append-nil, append_assoc, Perm, Mem}
pub use native.Mathlib.Omega.{arith}
