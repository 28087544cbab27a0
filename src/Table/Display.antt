-- ===== src/Table/Display.antt =====
-- `data` of app-lib/models/RegisterTableModel.cpp on the rows that a rebuild lays out.
use modbus_viewer.Prelude.{
  ℕ, ◌+◌, ◌-◌, ◌≤◌, ◌≡◌, refl, ap, ◌∙◌, inl, inr, false, some, arith, length, get_elem?, drop,
  length-take, length-drop, Bool-cases, Option-cases,
}
use modbus_viewer.Prelude.Texts.{Text}
use modbus_viewer.Model.{is_bit_register_type}
use modbus_viewer.Format.Settings.{Numerics, register_span_for}
use modbus_viewer.Format.Reading.{format_value-total}
use modbus_viewer.Table.Rows.{LogicalRow, Table}
use modbus_viewer.Table.Spans.{row_within_range}
use modbus_viewer.Table.Rebuilding.{IsBuilt, IsBuilt-rows_of, rows_of, word_rows_lem}
use modbus_viewer.Table.View.{
  Variant, invalid, TableRole, address_role, value_role, is_bit_role, bool_value_role,
  writable_role, other_role, raw_registers_for, value_text, row_data, table_data, on_off, bit_value,
}

module _ {R : Type 0} (n : Numerics R) where
  registers_of_row :
      (t : Table R) (row : LogicalRow R) (j : ℕ)
      → is_bit_register_type t.register_type ≡ false
      → IsBuilt n t
      → get_elem? t.logical_rows j ≡ some row
      → register_span_for row.settings.format ≤ length (raw_registers_for t row)
  unfolding raw_registers_for rows_of
  registers_of_row t row j w h e =
      let (rows, k, same) = IsBuilt-rows_of n t h in
      let here : rows ≡ t.logical_rows = ap (λ u. u.logical_rows) same in
      let found : get_elem? rows j ≡ some row = ap (λ l. get_elem? l j) here ∙ e in
      let (from, to, fits) =
        row_within_range t.start_address rows (t.start_address + length t.raw_values) j row
          (word_rows_lem n t rows w k) found in
      let rest = drop (row.address - t.start_address) t.raw_values in
      omega (
        arith,
        length-take row.span rest,
        length-drop (row.address - t.start_address) t.raw_values,
        from,
        to,
        fits,
      )

  value_text-total :
      (t : Table R) (row : LogicalRow R) (j : ℕ)
      → IsBuilt n t
      → get_elem? t.logical_rows j ≡ some row
      → (shown : Text) × (value_text n t row ≡ some shown)
  unfolding value_text
  value_text-total t row j h e = elim (Bool-cases (is_bit_register_type t.register_type)) [
    | inl b ↦ rw b (on_off (bit_value t row), refl)
    | inr b ↦ rw b (
        format_value-total n row.settings (raw_registers_for t row)
          (registers_of_row t row j b h e))
  ]

  row_data-total :
      (t : Table R) (row : LogicalRow R) (j : ℕ) (role : TableRole)
      → IsBuilt n t
      → get_elem? t.logical_rows j ≡ some row
      → (v : Variant R) × (row_data n t role row ≡ some v)
  unfolding row_data
  row_data-total t row j address_role h e = (_, refl)
  row_data-total t row j value_role h e =
      let (shown, k) = value_text-total t row j h e in rw k (_, refl)
  row_data-total t row j is_bit_role h e = (_, refl)
  row_data-total t row j bool_value_role h e = (_, refl)
  row_data-total t row j writable_role h e = (_, refl)
  row_data-total t row j other_role h e = (_, refl)

  -- On a table whose rows are built, `data` reads no register outside the list that `formatValue` is
  -- given, for every row index and role.
  pub table_data-total :
      (t : Table R) (row : ℕ) (role : TableRole)
      → IsBuilt n t
      → (v : Variant R) × (table_data n t row role ≡ some v)
  unfolding table_data
  table_data-total t row role h = elim (Option-cases (get_elem? t.logical_rows row)) [
    | inl e ↦ rw (e, table_data) (invalid, refl)
    | inr (found, e) ↦ rw (e, table_data) (row_data-total t found row role h e)
  ]
