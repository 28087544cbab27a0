-- ===== src/Format/Samples.antt =====
-- Integers in the place of `double` and a short notation in the place of QString's, for the tests.
use modbus_viewer.Prelude.{true, [], ◌∷◌, Option, none, some, ◌==◌, if◌then◌else◌}
use modbus_viewer.Prelude.Integers.{ℤ, pos, negsuc}
use modbus_viewer.Prelude.Texts.{Text}
use modbus_viewer.Format.Settings.{Numerics}

-- A number is written as its sign and one unit, which is enough to be read back.
abbrev pub unary : ℤ → Text
unary (pos k) = 0x2b ∷ k ∷ []
unary (negsuc k) = 0x2d ∷ k ∷ []

abbrev pub read_unary : Text → Option ℤ
read_unary [] = none
read_unary (a ∷ []) = none
read_unary (a ∷ k ∷ rest) = some (if a == 0x2b then pos k else negsuc k)

abbrev pub integers : Numerics ℤ
integers = record {
  zero = pos 0;
  one = pos 1;
  of_integer = λ i. i;
  add = λ a b. a;
  subtract = λ a b. a;
  multiply = λ a b. a;
  divide = λ a b. a;
  float32_of = λ v. pos v;
  float32_bits = λ a. 0;
  round64 = λ i. i;
  fuzzy_compare = λ a b. true;
  fuzzy_is_null = λ a. true;
  number = unary;
  number_in_base = λ a b. a ∷ [];
  number_of_double = unary;
  to_upper = λ t. t;
  to_int = read_unary;
  to_uint = λ t b. some 0;
  to_double = read_unary;
}
