-- ===== src/Rapid/Numbers.antt =====
-- What the program does with numbers beyond their text: conversions between integers and floating-point
-- numbers, and input streams that are asked whether they failed.
use abb_librws.Base.{ℕ, Bool, Text, Option, ◌==◌, false}

-- int: n, and -(n + 1)
pub data ℤ : Type 0 where
  pos : ℕ → ℤ
  negsuc : ℕ → ℤ

-- `case n:` for a number that is not negative
abbrev pub is_nat : ℕ → ℤ → Bool
is_nat n (pos m) = m == n
is_nat n (negsuc m) = false

-- The conversions of the language, `float` to `int` being the one with truncation, `*= 1e3` on a `float`,
-- and `stream >> x`, which is `none` where `fail()` is true after it.
pub record Conversions (Num Dnum : Type 0) : Type 0 where
  pub of_nat : ℕ → Num
  pub to_int : Num → ℤ
  pub times_1000 : Num → Num
  pub input_num : Text → Option Num
  pub input_dnum : Text → Option Dnum
  pub input_int : Text → Option ℤ
  pub input_unsigned : Text → Option ℕ
