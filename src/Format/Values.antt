-- ===== src/Format/Values.antt =====
-- `formatValue`, `numericValue` and `parseValue` of core/format/ValueFormatter.cpp. A `none` of the
-- first two is a read outside the list of registers.
use modbus_viewer.Prelude.{
  ℕ, ◌%◌, Bool, ◌&&◌, not, List, [], ◌∷◌, ◌++◌, Option, none, some, ◌>>=◌, ◌==◌, if◌then◌else◌,
  length, get_elem?, ◌||◌,
}
use modbus_viewer.Prelude.Integers.{ℤ, pos, signed16, signed32, unsigned16, unsigned32}
use modbus_viewer.Prelude.Texts.{Text, codes, is_empty, ends_with, chop, right_justified}
use modbus_viewer.Format.Words.{pack_bytes, unpack_to_registers}
use modbus_viewer.Format.Settings.{
  signed_decimal, unsigned_decimal, hex, binary, float32, int32_signed, int32_unsigned,
  FormatSettings, Numerics,
}

abbrev pub space : ℕ
space = 0x20

abbrev pub digit_zero : ℕ
digit_zero = 0x30

-- `packBytes` of the first two registers.
unfoldable pub packed : {R : Type 0} → FormatSettings R → List ℕ → Option ℕ
packed settings raw = do
  r0 ← get_elem? raw 0
  r1 ← get_elem? raw 1
  some (pack_bytes r0 r1 settings.byte_order)

module _ {R : Type 0} (n : Numerics R) where
  unfoldable pub is_default_scaling : FormatSettings R → Bool
  is_default_scaling settings =
      n.fuzzy_compare settings.scale n.one && n.fuzzy_is_null settings.offset

  unfoldable pub scaled : FormatSettings R → R → R
  scaled settings value = n.add (n.multiply value settings.scale) settings.offset

  unfoldable pub numeric_value : FormatSettings R → List ℕ → Option R
  numeric_value settings raw = elim settings.format [
    | hex ↦ (get_elem? raw 0 >>= λ r. some (n.of_integer (pos r)))
    | binary ↦ (get_elem? raw 0 >>= λ r. some (n.of_integer (pos r)))
    | signed_decimal ↦ (get_elem? raw 0 >>= λ r. some (scaled settings (n.of_integer (signed16 r))))
    | unsigned_decimal ↦ (get_elem? raw 0 >>= λ r. some (scaled settings (n.of_integer (pos r))))
    | float32 ↦ (packed settings raw >>= λ v. some (scaled settings (n.float32_of v)))
    | int32_signed ↦
        (packed settings raw >>= λ v. some (scaled settings (n.of_integer (signed32 v))))
    | int32_unsigned ↦ (packed settings raw >>= λ v. some (scaled settings (n.of_integer (pos v))))
  ]

  unfoldable pub with_unit : Text → FormatSettings R → Text
  with_unit numeric_text settings =
      if is_empty settings.unit then numeric_text else numeric_text ++ (space ∷ settings.unit)

  -- The text of an integer that is shown as it is, or scaled.
  unfoldable pub integer_text : FormatSettings R → ℤ → List ℕ → Option Text
  integer_text settings value raw =
      if is_default_scaling settings
      then some (with_unit (n.number value) settings)
      else (numeric_value settings raw >>= λ x. some (with_unit (n.number_of_double x) settings))

  -- Without the assertion on the number of registers, which release builds leave out.
  unfoldable pub format_value : FormatSettings R → List ℕ → Option Text
  format_value settings raw = elim settings.format [
    | hex ↦
        (get_elem? raw 0 >>= λ r.
        some (codes "0x" ++ right_justified (n.to_upper (n.number_in_base r 16)) 4 digit_zero))
    | binary ↦
        (get_elem? raw 0 >>= λ r. some (right_justified (n.number_in_base r 2) 16 digit_zero))
    | signed_decimal ↦ (get_elem? raw 0 >>= λ r. integer_text settings (signed16 r) raw)
    | unsigned_decimal ↦ (get_elem? raw 0 >>= λ r. integer_text settings (pos r) raw)
    | float32 ↦
        (numeric_value settings raw >>= λ x. some (with_unit (n.number_of_double x) settings))
    | int32_signed ↦ (packed settings raw >>= λ v. integer_text settings (signed32 v) raw)
    | int32_unsigned ↦ (packed settings raw >>= λ v. integer_text settings (pos v) raw)
  ]

  unfoldable pub without_unit : FormatSettings R → Text → Text
  without_unit settings text =
      let suffix = space ∷ settings.unit in
      if not (is_empty settings.unit) && ends_with text suffix
      then chop text (length suffix)
      else text

  -- `startsWith("0x", Qt::CaseInsensitive)` and `mid(2)`.
  unfoldable pub without_prefix : Text → Text
  without_prefix [] = []
  without_prefix (a ∷ []) = a ∷ []
  without_prefix (a ∷ b ∷ rest) =
      if a == digit_zero && (b == 0x78 || b == 0x58) then rest else a ∷ b ∷ rest

  unfoldable pub registers_of_double : FormatSettings R → R → Option (List ℕ)
  registers_of_double settings raw = elim settings.format [
    | signed_decimal ↦ some (unsigned16 (n.round64 raw) ∷ [])
    | unsigned_decimal ↦ some (unsigned16 (n.round64 raw) ∷ [])
    | float32 ↦ some (unpack_to_registers (n.float32_bits raw) settings.byte_order)
    | int32_signed ↦ some (unpack_to_registers (unsigned32 (n.round64 raw)) settings.byte_order)
    | int32_unsigned ↦ some (unpack_to_registers (unsigned32 (n.round64 raw)) settings.byte_order)
    | hex ↦ none
    | binary ↦ none
  ]

  unfoldable pub parse_decimal : FormatSettings R → Text → Option (List ℕ)
  parse_decimal settings text = do
    numeric ← n.to_double text
    registers_of_double settings (
        if is_default_scaling settings
        then numeric
        else n.divide (n.subtract numeric settings.offset) settings.scale)

  unfoldable pub parse_unsigned : Text → ℕ → Option (List ℕ)
  parse_unsigned text base = do value ← n.to_uint text base; some ((value % 65536) ∷ [])

  -- `none` where `*ok` is false.
  unfoldable pub parse_value : FormatSettings R → Text → Option (List ℕ)
  parse_value settings text =
      let numeric_text = without_unit settings text in
      elim settings.format [
        | hex ↦ parse_unsigned (without_prefix numeric_text) 16
        | binary ↦ parse_unsigned numeric_text 2
        | signed_decimal ↦ parse_decimal settings numeric_text
        | unsigned_decimal ↦ parse_decimal settings numeric_text
        | float32 ↦ parse_decimal settings numeric_text
        | int32_signed ↦ parse_decimal settings numeric_text
        | int32_unsigned ↦ parse_decimal settings numeric_text
      ]
