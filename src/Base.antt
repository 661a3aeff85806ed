-- ===== src/Base.antt =====
-- The names that the other modules share: the libraries', passed on, and those of the children.
mod Tests
mod Lists
mod Sets
mod Assoc
mod ByteMaps
mod Faults
pub use Tests.*
unfoldable pub use Lists.*
pub use Sets.*
unfoldable pub use Assoc.{lookup, insert, erase, keys, values}
pub use Assoc.{
  Map, lookup-insert, lookup-insert_self, lookup-erase, length-insert, mem-keys-insert,
  keys-insert-Distinct, mem-keys-lookup, lookup-erase_self, mem-keys-erase, keys-erase-Distinct,
}
unfoldable pub use ByteMaps.{read, write, remove}
pub use ByteMaps.{ByteMap, read-write, read-write_self, eq_bytes_refl}
pub use Faults.*
pub use Prim.Native.Nat.{ℕ, zero, suc, ◌+◌, ◌-◌, ◌*◌, ◌/◌, ◌%◌, ◌^◌, ◌≤◌, ◌<◌}
pub use mathlib.Core.Path.{◌≡◌, refl, sym, ap, subst, ◌∙◌}
pub use mathlib.Core.Logic.{◌≢◌, ◌↔◌, ◌⊎◌, inl, inr}
pub use mathlib.Core.Bool.{Bool, true, false, not, ◌&&◌, ◌||◌}
pub use mathlib.Core.Option.{Option, none, some}
pub use mathlib.Core.List.{List, [], ◌∷◌, ◌++◌, map}
pub use native.Mathlib.Omega.{arith}
unfoldable pub use native.Mathlib.Decide.{dec_lt, ℕ_discrete}
