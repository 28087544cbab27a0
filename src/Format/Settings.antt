-- ===== src/Format/Settings.antt =====
-- The settings of core/format/ValueFormatter.h, and what its functions use of `double` and of Qt.
use modbus_viewer.Prelude.{ℕ, Bool, [], Option}
use modbus_viewer.Prelude.Integers.{ℤ}
use modbus_viewer.Prelude.Texts.{Text}
use modbus_viewer.Format.Words.{ByteOrder}

pub data DisplayFormat : Type 0 where
  signed_decimal unsigned_decimal hex binary float32 int32_signed int32_unsigned : DisplayFormat

-- `R` stands for `double`.
pub record FormatSettings (R : Type 0) : Type 0 where
  pub format : DisplayFormat
  pub byte_order : ByteOrder
  pub scale : R
  pub offset : R
  pub unit : Text

unfoldable pub register_span_for : DisplayFormat → ℕ
register_span_for signed_decimal = 1
register_span_for unsigned_decimal = 1
register_span_for hex = 1
register_span_for binary = 1
register_span_for float32 = 2
register_span_for int32_signed = 2
register_span_for int32_unsigned = 2

-- What the program uses of `double` and of QString's conversions. `float32` of a bit pattern is the
-- `float` with these bits, as a `double`; `float32_bits` are the bits of a `double` as a `float`.
pub record Numerics (R : Type 0) : Type 0 where
  pub zero : R
  pub one : R
  pub of_integer : ℤ → R
  pub add : R → R → R
  pub subtract : R → R → R
  pub multiply : R → R → R
  pub divide : R → R → R
  pub float32_of : ℕ → R
  pub float32_bits : R → ℕ
  pub round64 : R → ℤ
  pub fuzzy_compare : R → R → Bool
  pub fuzzy_is_null : R → Bool
  pub number : ℤ → Text
  pub number_in_base : ℕ → ℕ → Text
  pub number_of_double : R → Text
  pub to_upper : Text → Text
  pub to_int : Text → Option ℤ
  pub to_uint : Text → ℕ → Option ℕ
  pub to_double : Text → Option R

-- `FormatSettings{}`.
unfoldable pub default_format_settings : {R : Type 0} → Numerics R → FormatSettings R
default_format_settings n = record {
  format = unsigned_decimal;
  byte_order = ByteOrder.abcd;
  scale = n.one;
  offset = n.zero;
  unit = [];
}
