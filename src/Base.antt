-- ===== src/Base.antt =====
-- Names that every module shares: the libraries', passed on, and the language's own
-- data structures (Python's `dict`, lists, exceptions) in the modules below.
mod Tests
mod Lists
mod Dicts
mod Actions
mod Pigeons
mod Text
mod Integers
unfoldable pub use Tests.*
unfoldable pub use Lists.*
unfoldable pub use Dicts.*
unfoldable pub use Text.*
unfoldable pub use Integers.*
unfoldable pub use Pigeons.*
unfoldable pub use Actions.*
pub use Prim.Native.Nat.{ℕ, zero, suc, ◌+◌, ◌-◌, ◌≤◌, ◌<◌}
pub use Prim.Native.String.{String}
pub use mathlib.Core.Path.{◌≡◌, refl, sym, ap, ◌∙◌, ◌≡⟨◌⟩◌, ◌∎, fun_ext, subst}
pub use mathlib.Core.Logic.{◌≢◌, ◌↔◌, ◌⊎◌, inl, inr, ite, dite, if_pos, if_neg}
unfoldable pub use native.Mathlib.Decide.{ℕ_discrete}
pub use mathlib.Core.Bool.{Bool, true, false, not, cond, ◌&&◌, ◌||◌}
pub use mathlib.Core.Option.{Option, none, some}
pub use mathlib.Core.List.{List, [], ◌∷◌, ◌++◌, map, append-nil, append_assoc, map-append}
pub use native.Mathlib.Omega.{arith}
