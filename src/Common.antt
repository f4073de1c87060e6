-- ===== src/Common.antt =====
-- The names that the other modules share: the libraries', passed on, and those of the children.
mod Tests
mod Outcome
mod Vectors
mod Words
unfoldable pub use Tests.*
pub use Outcome.*
pub use Vectors.{
  Bytes, length, length-append, length-reverse, drop-append, take-append, take_short, drop-length,
  drop-add, drop_field, slice_field, drop_zero, le_cases, slice_short, seek, u32, u64, mod-le,
  AllBytes, append-AllBytes, reverse-AllBytes, take_enough, drop_enough, drop_short, slice_enough,
  at_enough, bytes_eq_refl, bytes_eq-true,
}
unfoldable pub use Vectors.{drop, take, slice, at, bytes_eq}
pub use Words.{
  Endianness, little_endian, big_endian, length-uint_to_vch, vch_to_uint-uint_to_vch,
  uint_to_vch-AllBytes, read_uint_enough, vch_to_uint_enough, read_uint_short, vch_to_uint_exact,
  read_uint_field, drop_uint_field,
}
unfoldable pub use Words.{push_bytes, uint_to_vch, shift_in, vch_to_uint, read_uint}
pub use Prim.Native.Nat.{ℕ, zero, suc, ◌+◌, ◌-◌, ◌*◌, ◌/◌, ◌%◌, ◌^◌, ◌≤◌, ◌<◌, min, max}
pub use mathlib.Core.Path.{◌≡◌, refl, sym, ap, ◌∙◌}
pub use mathlib.Core.Logic.{◌≢◌, ◌⊎◌, inl, inr}
pub use mathlib.Core.Bool.{Bool, true, false, not, ◌&&◌, ◌||◌}
pub use mathlib.Core.Option.{Option, none, some}
pub use mathlib.Core.List.{List, [], ◌∷◌, ◌++◌, map, reverse}
pub use mathlib.Core.List.{append_assoc, append-nil, reverse-reverse}
pub use native.Mathlib.Omega.{arith}
