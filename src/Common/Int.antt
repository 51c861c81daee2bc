-- ===== src/Common/Int.antt =====
-- Signed integers over the native numbers, under the library's names, with the tests that the
-- program makes on an `int`. A `double` is its 64-bit pattern; the operations of the processor on
-- such patterns are a parameter of what uses them.
use Prim.Native.Nat.{ℕ}
use mathlib.Core.Bool.{Bool, true, false}
use mathlib.Core.Option.{Option}
use sled_server.Common.Tests.{◌==◌}

-- `negsuc n` is -(n + 1).
pub data ℤ : Type 0 where
  pos : ℕ → ℤ
  negsuc : ℕ → ℤ

abbrev pub eq_ℤ : ℤ → ℤ → Bool
eq_ℤ (pos a) (pos b) = a == b
eq_ℤ (negsuc a) (negsuc b) = a == b
eq_ℤ _ _ = false

abbrev pub is_nonneg : ℤ → Bool
is_nonneg (pos n) = true
is_nonneg (negsuc n) = false

abbrev pub Double : Type 0
Double = ℕ

-- The operations on doubles that the program uses. `literal n` is the constant `n.0`, and
-- `of_int32` converts from the 32-bit pattern of an int32_t, and `to_int32` to it where the double's
-- integral part is an int32_t; where it is not, the conversion is undefined.
pub record Fpu : Type 0 where
  pub literal : ℕ → Double
  pub half : Double
  pub add : Double → Double → Double
  pub sub : Double → Double → Double
  pub mul : Double → Double → Double
  pub div : Double → Double → Double
  pub ne : Double → Double → Bool
  pub gt : Double → Double → Bool
  pub to_int32 : Double → Option ℕ
  pub of_int32 : ℕ → Double
