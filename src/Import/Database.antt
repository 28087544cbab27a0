-- ===== src/Import/Database.antt =====
-- app-lib/models/TagDatabaseModel.cpp.
use modbus_viewer.Prelude.{
  ℕ, ◌+◌, ◌-◌, List, [], ◌∷◌, ◌++◌, none, some, if◌then◌else◌, length, get_elem?,
}
use modbus_viewer.Prelude.Integers.{ℤ, pos}
use modbus_viewer.Prelude.Texts.{Text, is_empty}
use modbus_viewer.Model.{RegisterType, holding_register}
use modbus_viewer.Format.Words.{ByteOrder}
use modbus_viewer.Format.Settings.{DisplayFormat, Numerics, default_format_settings}
use modbus_viewer.Favorites.Entries.{RegisterDefinition, imported}

pub data DatabaseSignal : Type 0 where
  rows_inserted : ℕ → ℕ → DatabaseSignal
  tags_reset : DatabaseSignal

pub data TagRole : Type 0 where
  label_role description_role address_role register_type_role format_role byte_order_role scale_role
        offset_role unit_role other_role :
      TagRole

pub data TagDatum (R : Type 0) : Type 0 where
  no_datum : TagDatum R
  text : Text → TagDatum R
  integer : ℤ → TagDatum R
  type : RegisterType → TagDatum R
  format : DisplayFormat → TagDatum R
  order : ByteOrder → TagDatum R
  real : R → TagDatum R

module _ {R : Type 0} where
  unfoldable add_tags :
      List (RegisterDefinition R)
      → List (RegisterDefinition R)
      → List (RegisterDefinition R) × List DatabaseSignal
  add_tags new tags =
      if is_empty new
      then (tags, [])
      else (tags ++ new, rows_inserted (length tags) (length tags + length new - 1) ∷ [])

  unfoldable clear_tags :
      List (RegisterDefinition R) → List (RegisterDefinition R) × List DatabaseSignal
  clear_tags tags = if is_empty tags then (tags, []) else ([], tags_reset ∷ [])

  unfoldable tag_datum : RegisterDefinition R → TagRole → TagDatum R
  tag_datum tag label_role = text tag.label
  tag_datum tag description_role = text tag.description
  tag_datum tag address_role = integer tag.address
  tag_datum tag register_type_role = type tag.register_type
  tag_datum tag format_role = format tag.format.format
  tag_datum tag byte_order_role = order tag.format.byte_order
  tag_datum tag scale_role = real tag.format.scale
  tag_datum tag offset_role = real tag.format.offset
  tag_datum tag unit_role = text tag.format.unit
  tag_datum tag other_role = no_datum

  unfoldable tag_data : List (RegisterDefinition R) → ℕ → TagRole → TagDatum R
  tag_data tags row role = elim (get_elem? tags row) [
    | none ↦ no_datum
    | some tag ↦ tag_datum tag role
  ]

module _ {R : Type 0} (n : Numerics R) where
  abbrev empty_definition : RegisterDefinition R
  empty_definition = record {
    label = [];
    description = [];
    register_type = holding_register;
    address = pos 0;
    format = default_format_settings n;
    source = imported;
  }

  unfoldable tag_at : ℕ → List (RegisterDefinition R) → RegisterDefinition R
  tag_at row tags = elim (get_elem? tags row) [ none ↦ empty_definition | some tag ↦ tag ]
