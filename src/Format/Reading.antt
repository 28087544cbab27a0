-- ===== src/Format/Reading.antt =====
-- `formatValue` and `numericValue` of core/format/ValueFormatter.cpp on a list with the registers of
-- the format.
use modbus_viewer.Prelude.{
  ℕ, ◌≤◌, ◌≡◌, refl, inl, inr, List, some, arith, length, get_elem?_below, Bool-cases,
}
use modbus_viewer.Prelude.Integers.{ℤ, pos, signed16, signed32}
use modbus_viewer.Prelude.Texts.{Text}
use modbus_viewer.Format.Words.{ByteOrder}
use modbus_viewer.Format.Settings.{
  DisplayFormat, signed_decimal, unsigned_decimal, hex, binary, float32, int32_signed,
  int32_unsigned, FormatSettings, Numerics, register_span_for,
}
use modbus_viewer.Format.Values.{
  packed, is_default_scaling, numeric_value, integer_text, format_value,
}

module _ {R : Type 0} where
  abbrev settings_with : DisplayFormat → ByteOrder → R → R → Text → FormatSettings R
  settings_with f o s t u = record { format = f; byte_order = o; scale = s; offset = t; unit = u }

  packed-total :
      (settings : FormatSettings R) (raw : List ℕ)
      → 2 ≤ length raw
      → (v : ℕ) × (packed settings raw ≡ some v)
  unfolding packed
  packed-total settings raw h =
      let (a, e) = get_elem?_below raw 0 (omega arith) in
      let (b, k) = get_elem?_below raw 1 (omega arith) in rw (e, k) (_, refl)

module _ {R : Type 0} (n : Numerics R) where
  numeric_value_with :
      (f : DisplayFormat) (o : ByteOrder) (s t : R) (u : Text) (raw : List ℕ)
      → register_span_for f ≤ length raw
      → (x : R) × (numeric_value n (settings_with f o s t u) raw ≡ some x)
  unfolding numeric_value register_span_for
  numeric_value_with hex o s t u raw h =
      let (a, k) = get_elem?_below raw 0 (omega arith) in rw k (_, refl)
  numeric_value_with binary o s t u raw h =
      let (a, k) = get_elem?_below raw 0 (omega arith) in rw k (_, refl)
  numeric_value_with signed_decimal o s t u raw h =
      let (a, k) = get_elem?_below raw 0 (omega arith) in rw k (_, refl)
  numeric_value_with unsigned_decimal o s t u raw h =
      let (a, k) = get_elem?_below raw 0 (omega arith) in rw k (_, refl)
  numeric_value_with float32 o s t u raw h =
      let (v, k) = packed-total (settings_with float32 o s t u) raw h in rw k (_, refl)
  numeric_value_with int32_signed o s t u raw h =
      let (v, k) = packed-total (settings_with int32_signed o s t u) raw h in rw k (_, refl)
  numeric_value_with int32_unsigned o s t u raw h =
      let (v, k) = packed-total (settings_with int32_unsigned o s t u) raw h in rw k (_, refl)

  -- On as many registers as the format takes there is a numeric value.
  pub numeric_value-total :
      (settings : FormatSettings R) (raw : List ℕ)
      → register_span_for settings.format ≤ length raw
      → (x : R) × (numeric_value n settings raw ≡ some x)
  numeric_value-total settings raw h =
      numeric_value_with settings.format settings.byte_order settings.scale settings.offset
        settings.unit raw h

  integer_text-total :
      (settings : FormatSettings R) (value : ℤ) (raw : List ℕ)
      → register_span_for settings.format ≤ length raw
      → (t : Text) × (integer_text n settings value raw ≡ some t)
  unfolding integer_text
  integer_text-total settings value raw h = elim (Bool-cases (is_default_scaling n settings)) [
    | inl e ↦ rw e (_, refl)
    | inr e ↦ let (x, k) = numeric_value-total settings raw h in rw (e, k) (_, refl)
  ]

  format_value_with :
      (f : DisplayFormat) (o : ByteOrder) (s t : R) (u : Text) (raw : List ℕ)
      → register_span_for f ≤ length raw
      → (shown : Text) × (format_value n (settings_with f o s t u) raw ≡ some shown)
  unfolding format_value register_span_for
  format_value_with hex o s t u raw h =
      let (a, k) = get_elem?_below raw 0 (omega arith) in rw k (_, refl)
  format_value_with binary o s t u raw h =
      let (a, k) = get_elem?_below raw 0 (omega arith) in rw k (_, refl)
  format_value_with signed_decimal o s t u raw h =
      let (a, k) = get_elem?_below raw 0 (omega arith) in
      rw k (integer_text-total (settings_with signed_decimal o s t u) (signed16 a) raw h)
  format_value_with unsigned_decimal o s t u raw h =
      let (a, k) = get_elem?_below raw 0 (omega arith) in
      rw k (integer_text-total (settings_with unsigned_decimal o s t u) (pos a) raw h)
  format_value_with float32 o s t u raw h =
      let (x, k) = numeric_value-total (settings_with float32 o s t u) raw h in rw k (_, refl)
  format_value_with int32_signed o s t u raw h =
      let (v, k) = packed-total (settings_with int32_signed o s t u) raw h in
      rw k (integer_text-total (settings_with int32_signed o s t u) (signed32 v) raw h)
  format_value_with int32_unsigned o s t u raw h =
      let (v, k) = packed-total (settings_with int32_unsigned o s t u) raw h in
      rw k (integer_text-total (settings_with int32_unsigned o s t u) (pos v) raw h)

  -- On as many registers as the format takes there is a text.
  pub format_value-total :
      (settings : FormatSettings R) (raw : List ℕ)
      → register_span_for settings.format ≤ length raw
      → (t : Text) × (format_value n settings raw ≡ some t)
  format_value-total settings raw h =
      format_value_with settings.format settings.byte_order settings.scale settings.offset
        settings.unit raw h
