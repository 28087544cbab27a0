-- ===== src/Table/View.antt =====
-- `data`, `rowCount`, `columnCount`, `formatSettingsAt` and `maxReadCountFor` of
-- app-lib/models/RegisterTableModel.cpp. A row index is a natural number: a negative one has no row either.
use modbus_viewer.Prelude.{
  ℕ, ◌+◌, ◌-◌, Bool, false, ◌&&◌, List, ◌++◌, Option, none, some, ◌>>=◌, ◌==◌, if◌then◌else◌,
  length, get_elem?, get_or, take, drop,
}
use modbus_viewer.Prelude.Integers.{pos}
use modbus_viewer.Prelude.Texts.{Text, codes}
use modbus_viewer.Model.{is_bit_register_type, is_writable_register_type, max_read_count_for}
use modbus_viewer.Addresses.{display_address}
use modbus_viewer.Format.Settings.{FormatSettings, Numerics}
use modbus_viewer.Format.Values.{format_value}
use modbus_viewer.Table.Rows.{LogicalRow, Table, format_at}

-- What a QVariant holds here.
pub data Variant (R : Type 0) : Type 0 where
  invalid : Variant R
  text : Text → Variant R
  truth : Bool → Variant R
  reals : List R → Variant R

pub data TableRole : Type 0 where
  address_role value_role is_bit_role bool_value_role writable_role other_role : TableRole

abbrev pub column_count : ℕ
column_count = 2

module _ {R : Type 0} where
  unfoldable pub row_count : Table R → ℕ
  row_count t = length t.logical_rows

  unfoldable pub max_read_count : Table R → ℕ
  max_read_count t = max_read_count_for t.register_type

  unfoldable pub raw_registers_for : Table R → LogicalRow R → List ℕ
  raw_registers_for t row = take row.span (drop (row.address - t.start_address) t.raw_values)

  unfoldable pub bit_value : Table R → LogicalRow R → Bool
  bit_value t row = get_or t.bit_values (row.address - t.start_address) false

abbrev pub on_off : Bool → Text
on_off value = if value then codes "ON" else codes "OFF"

module _ {R : Type 0} (n : Numerics R) where
  unfoldable pub shown_address : Table R → ℕ → Text
  shown_address t address =
      n.number (display_address t.register_type (pos address) t.address_convention)

  unfoldable pub address_text : Table R → LogicalRow R → Text
  address_text t row =
      if row.span == 1
      then shown_address t row.address
      else shown_address t row.address
        ++ (codes "-" ++ shown_address t (row.address + row.span - 1))

  unfoldable pub value_text : Table R → LogicalRow R → Option Text
  value_text t row =
      if is_bit_register_type t.register_type
      then some (on_off (bit_value t row))
      else format_value n row.settings (raw_registers_for t row)

  -- `none` where `formatValue` reads outside the registers of the row.
  unfoldable pub row_data : Table R → TableRole → LogicalRow R → Option (Variant R)
  row_data t role row = elim role [
    | address_role ↦ some (text (address_text t row))
    | value_role ↦ (value_text t row >>= λ shown. some (text shown))
    | is_bit_role ↦ some (truth (is_bit_register_type t.register_type))
    | bool_value_role ↦ some (truth (is_bit_register_type t.register_type && bit_value t row))
    | writable_role ↦ some (truth (is_writable_register_type t.register_type))
    | other_role ↦ some invalid
  ]

  unfoldable pub table_data : Table R → ℕ → TableRole → Option (Variant R)
  table_data t row role = elim (get_elem? t.logical_rows row) [
    | none ↦ some invalid
    | some found ↦ row_data t role found
  ]

  -- The settings asked for at the row's address; `none` is an empty map.
  unfoldable pub format_settings_at : Table R → ℕ → Option (FormatSettings R)
  format_settings_at t row = elim (get_elem? t.logical_rows row) [
    | none ↦ none
    | some found ↦
        if is_bit_register_type t.register_type
        then none
        else some (format_at n t.formats found.address)
  ]
