-- ===== src/Base.antt =====
-- Names shared by the models of every part of the kernel: the libraries', passed on, and those of
-- the children (C conditionals and comparisons, fixed-width words, arrays as lists).
mod Tests
mod Words
mod Lists
mod Int
mod Bits
mod BitAt
mod Bytes
mod Xor
pub use Tests.*
pub use Words.*
pub use Lists.*
pub use BitAt.*
pub use Int.*
pub use Bits.*
pub use Bytes.*
pub use Xor.*
pub use Bytes.Laws.*
pub use Prim.Native.Nat.{
  ℕ, zero, suc, ◌+◌, ◌-◌, ◌*◌, ◌/◌, ◌%◌, ◌^◌, ◌≤◌, ◌<◌, min, max, bit_and, bit_or, bit_xor,
}
pub use mathlib.Core.Path.{◌≡◌, refl, sym, ap, ap₂, ◌∙◌, subst, fun_ext}
pub use mathlib.Core.Logic.{◌≢◌, ◌↔◌, ◌⊎◌, inl, inr}
pub use mathlib.Core.Bool.{Bool, true, false, not, ◌&&◌, ◌||◌}
pub use mathlib.Core.Option.{Option, none, some}
pub use mathlib.Core.List.{List, [], ◌∷◌, ◌++◌, map, reverse}
pub use native.Mathlib.Omega.{arith}
