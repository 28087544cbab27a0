-- ===== src/Import/Rows.antt =====
-- core/importer/TagRowParser.h and core/importer/TagRowParser.cpp. A text that `arg` formats is kept as
-- what goes into it.
use modbus_viewer.Prelude.{Bool, List, [], ◌∷◌, Option, none, some, if◌then◌else◌}
use modbus_viewer.Prelude.Integers.{ℤ, pos, negsuc}
use modbus_viewer.Prelude.Texts.{Text, codes, text_eq, is_empty}
use modbus_viewer.Model.{RegisterType, coil, discrete_input, holding_register, input_register}
use modbus_viewer.Format.Words.{ByteOrder, abcd, badc, cdab, dcba}
use modbus_viewer.Format.Settings.{
  DisplayFormat, signed_decimal, unsigned_decimal, hex, binary, float32, int32_signed,
  int32_unsigned, FormatSettings, Numerics, default_format_settings,
}
use modbus_viewer.Favorites.Entries.{RegisterDefinition, imported}

-- What the importers use of QString's knowledge of characters.
pub record Characters : Type 0 where
  pub trimmed : Text → Text
  pub to_lower : Text → Text
  pub equal_ignoring_case : Text → Text → Bool

pub data RowError : Type 0 where
  missing_label : RowError
  unrecognized_register_type invalid_address unrecognized_format unrecognized_byte_order
        invalid_scale invalid_offset :
      Text → RowError

-- `TagRowParseOutcome`, and the outcome of a step on the way to it.
pub data Outcome (A : Type 0) : Type 0 where
  accepted : A → Outcome A
  rejected : RowError → Outcome A

infixl 5 ◌>>=◌
abbrev pub ◌>>=◌ : {A B : Type 0} → Outcome A → (A → Outcome B) → Outcome B
accepted a >>= f = f a
rejected e >>= f = rejected e

abbrev pub require : {A : Type 0} → RowError → Option A → Outcome A
require error none = rejected error
require error (some a) = accepted a

-- `QMap::value`, with an empty text for a missing key.
unfoldable pub field : List (Text × Text) → Text → Text
field [] key = []
field ((k, v) ∷ fields) key = if text_eq k key then v else field fields key

-- The first name that matches.
unfoldable pub named : {A : Type 0} → Characters → List (Text × A) → Text → Option A
named chars [] text = none
named chars ((name, a) ∷ names) text =
    if chars.equal_ignoring_case text name then some a else named chars names text

abbrev pub register_type_names : List (Text × RegisterType)
register_type_names =
    (codes "Coil", coil)
    ∷ (codes "DiscreteInput", discrete_input)
    ∷ (codes "HoldingRegister", holding_register)
    ∷ (codes "InputRegister", input_register)
    ∷ []

abbrev pub display_format_names : List (Text × DisplayFormat)
display_format_names =
    (codes "SignedDecimal", signed_decimal)
    ∷ (codes "UnsignedDecimal", unsigned_decimal)
    ∷ (codes "Hex", hex)
    ∷ (codes "Binary", binary)
    ∷ (codes "Float32", float32)
    ∷ (codes "Int32Signed", int32_signed)
    ∷ (codes "Int32Unsigned", int32_unsigned)
    ∷ []

abbrev pub byte_order_names : List (Text × ByteOrder)
byte_order_names =
    (codes "ABCD", abcd) ∷ (codes "BADC", badc) ∷ (codes "CDAB", cdab) ∷ (codes "DCBA", dcba) ∷ []

-- An optional field: the default for an empty text, otherwise what the text stands for.
unfoldable pub optional : {A : Type 0} → RowError → A → (Text → Option A) → Text → Outcome A
optional error default read text =
    if is_empty text then accepted default else require error (read text)

abbrev pub natural_address : Option ℤ → Option ℤ
natural_address none = none
natural_address (some (pos k)) = some (pos k)
natural_address (some (negsuc k)) = none

module _ {R : Type 0} (chars : Characters) (n : Numerics R) where
  unfoldable pub parse_format : List (Text × Text) → Outcome (FormatSettings R)
  parse_format fields =
      let text : Text → Text = λ key. chars.trimmed (field fields key) in
      let start : FormatSettings R = default_format_settings n in
      do
        format ←
            optional (unrecognized_format (text (codes "format"))) start.format
              (named chars display_format_names) (text (codes "format"))
        byte_order ←
            optional (unrecognized_byte_order (text (codes "byteorder"))) start.byte_order
              (named chars byte_order_names) (text (codes "byteorder"))
        scale ←
            optional (invalid_scale (text (codes "scale"))) start.scale n.to_double
              (text (codes "scale"))
        offset ←
            optional (invalid_offset (text (codes "offset"))) start.offset n.to_double
              (text (codes "offset"))
        accepted (record {
          format = format;
          byte_order = byte_order;
          scale = scale;
          offset = offset;
          unit = text (codes "unit");
        })

  -- The rest of `parseTagRow` after the label.
  unfoldable pub parse_labelled : List (Text × Text) → Outcome (RegisterDefinition R)
  parse_labelled fields =
      let text : Text → Text = λ key. chars.trimmed (field fields key) in
      do
        register_type ←
            require (unrecognized_register_type (text (codes "registertype")))
              (named chars register_type_names (text (codes "registertype")))
        address ←
            require (invalid_address (text (codes "address")))
              (natural_address (n.to_int (text (codes "address"))))
        format ← parse_format fields
        accepted (record {
          label = text (codes "label");
          description = text (codes "description");
          register_type = register_type;
          address = address;
          format = format;
          source = imported;
        })

  unfoldable pub parse_tag_row : List (Text × Text) → Outcome (RegisterDefinition R)
  parse_tag_row fields =
      if is_empty (chars.trimmed (field fields (codes "label")))
      then rejected missing_label
      else parse_labelled fields
