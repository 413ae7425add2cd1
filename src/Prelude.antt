-- ===== src/Prelude.antt =====
-- Names that the modules share: the libraries', passed on, and those of the children below.
mod Tests
mod Lists
mod Bytes
mod Results
mod Texts
mod Parse
pub use Tests.*
unfoldable pub use Tests.{one_of}
unfoldable pub use Texts.{decimal, hex, pad_zeros}
pub use Lists.*
pub use Bytes.*
pub use Results.*
pub use Texts.*
pub use Parse.*
unfoldable pub use Parse.{
  parse_int_text, digits_value, skip_plus, from_str_radix, u8_from_hex, u16_from_hex,
  u16_from_decimal, split_lines, lines,
}
pub use Prim.Native.Nat.{ℕ, zero, suc, ◌+◌, ◌-◌, ◌*◌, ◌/◌, ◌%◌, ◌^◌, ◌≤◌, ◌<◌, bit_xor, min, max}
pub use Prim.Native.String.{String}
pub use mathlib.Core.Path.{◌≡◌, refl, sym, ap, ap₂, subst, ◌∙◌}
pub use mathlib.Core.Logic.{◌≢◌, ◌↔◌, ◌⊎◌, inl, inr}
pub use mathlib.Core.Bool.{Bool, true, false, not, ◌&&◌, ◌||◌}
pub use mathlib.Core.Option.{Option, none, some}
pub use mathlib.Core.List.{List, [], ◌∷◌, ◌++◌, map, append-nil, append_assoc}
pub use native.Mathlib.Omega.{arith}
