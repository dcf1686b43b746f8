-- ===== src/Base.antt =====
-- The names that the modules of the development share: the libraries', passed on, and those of
-- its children. Nothing here models code of the repository.
mod Tests
mod Lists
mod Options
mod Text
pub mod Int
pub use Tests.*
pub use Lists.*
pub use Options.{
  Each, nothing, just, Each-if, Yields, yields, bind-Yields, Yields-if, Yields-map, Yields-eq,
  Yields-value,
}
unfoldable pub use Options.{◌>>=◌}
pub use Text.{codes, concat, bytes_eq, str_eq, str_eq_iff}
unfoldable pub use Text.{to_string, byte_text}
pub use Prim.Native.Nat.{ℕ, zero, suc, ◌+◌, ◌-◌, ◌*◌, ◌/◌, ◌%◌, ◌^◌, ◌≤◌, ◌<◌, min, max}
pub use Prim.Native.String.{String}
pub use mathlib.Core.Path.{◌≡◌, refl, sym, ap, subst, ◌∙◌, fun_ext}
pub use mathlib.Core.Logic.{◌≢◌, ◌↔◌, ◌⊎◌, inl, inr}
pub use mathlib.Core.Bool.{Bool, true, false, not, ◌&&◌, ◌||◌}
pub use mathlib.Core.Option.{Option, none, some}
pub use mathlib.Core.List.{List, [], ◌∷◌, ◌++◌, map, append-nil, append_assoc}
pub use native.Mathlib.Omega.{arith}
