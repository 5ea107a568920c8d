-- ===== src/Common.antt =====
-- Names shared by the modules of the library: those of the mounted libraries, passed on, and those
-- of the child modules.
mod Basic
mod Text
mod Lists
mod Members
mod Results
pub mod Contracts
pub mod Runs
pub mod Dict
pub mod Int
unfoldable pub use Basic.*
unfoldable pub use Text.*
unfoldable pub use Lists.*
pub use Members.*
unfoldable pub use Results.*
pub use Prim.Native.Nat.{ℕ, zero, suc, ◌+◌, ◌-◌, ◌*◌, ◌≤◌, ◌<◌}
pub use Prim.Native.String.{String}
pub use mathlib.Core.Path.{◌≡◌, refl, sym, ap, ◌∙◌, subst}
pub use mathlib.Core.Logic.{◌≢◌, ◌↔◌, ◌⊎◌, inl, inr, ⊎_elim, ite, if_pos, if_neg}
pub use mathlib.Core.Bool.{Bool, true, false, ◌&&◌, ◌||◌, not}
pub use mathlib.Core.Option.{Option, none, some}
pub use mathlib.Core.List.{List, [], ◌∷◌, ◌++◌, map, Memᴰ, Permᴰ}
pub use native.Mathlib.Omega.{arith}
