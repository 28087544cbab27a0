-- ===== src/Table/Rows.antt =====
-- The state of app-lib/models/RegisterTableModel.h, and `rebuildLogicalRows` of
-- app-lib/models/RegisterTableModel.cpp.
use modbus_viewer.Prelude.{
  ℕ, zero, suc, ◌+◌, ◌-◌, Bool, List, [], ◌∷◌, ◌++◌, Option, none, some, ◌==◌, leb, if◌then◌else◌,
  length, replicate,
}
use modbus_viewer.Model.{RegisterType, is_bit_register_type}
use modbus_viewer.Addresses.{AddressConvention}
use modbus_viewer.Format.Settings.{
  FormatSettings, Numerics, register_span_for, default_format_settings,
}

pub record LogicalRow (R : Type 0) : Type 0 where
  pub address : ℕ
  pub span : ℕ
  pub settings : FormatSettings R

-- `formats` is the map from addresses, and the rows and the index map are rebuilt from the rest.
pub record Table (R : Type 0) : Type 0 where
  pub start_address : ℕ
  pub raw_values : List ℕ
  pub bit_values : List Bool
  pub formats : List (ℕ × FormatSettings R)
  pub address_convention : AddressConvention
  pub register_type : RegisterType
  pub stale : Bool
  pub logical_rows : List (LogicalRow R)
  pub raw_index_to_row_index : List ℕ

module _ {R : Type 0} (n : Numerics R) where
  -- `m_formats.value(address)`.
  unfoldable pub format_at : List (ℕ × FormatSettings R) → ℕ → FormatSettings R
  format_at [] address = default_format_settings n
  format_at ((a, s) ∷ formats) address = if a == address then s else format_at formats address

  unfoldable pub bit_rows : ℕ → List Bool → List (LogicalRow R)
  bit_rows address [] = []
  bit_rows address (b ∷ bs) =
      record { address = address; span = 1; settings = default_format_settings n }
      ∷ bit_rows (address + 1) bs

  -- The row at an address with so many registers left: as wide as its format needs, if that fits.
  unfoldable pub row_at : List (ℕ × FormatSettings R) → ℕ → ℕ → LogicalRow R
  row_at formats address left =
      let requested = format_at formats address in
      let needed_span = register_span_for requested.format in
      if leb needed_span left
      then record { address = address; span = needed_span; settings = requested }
      else record { address = address; span = 1; settings = default_format_settings n }

  -- The `while` loop over `i`, with the number of registers left, on fuel.
  unfoldable pub word_rows : ℕ → List (ℕ × FormatSettings R) → ℕ → ℕ → Option (List (LogicalRow R))
  word_rows fuel formats address zero = some []
  word_rows zero formats address (suc left) = none
  word_rows (suc fuel) formats address (suc left) =
      let row = row_at formats address (suc left) in
      elim (word_rows fuel formats (address + row.span) (suc left - row.span)) [
        | none ↦ none
        | some rows ↦ some (row ∷ rows)
      ]

-- What the loop writes to the index map, row by row.
unfoldable pub row_indices : {R : Type 0} → ℕ → List (LogicalRow R) → List ℕ
row_indices i [] = []
row_indices i (row ∷ rows) = replicate row.span i ++ row_indices (i + 1) rows

module _ {R : Type 0} (n : Numerics R) where
  -- Each round takes one register at least.
  unfoldable pub built_rows : Table R → Option (List (LogicalRow R))
  built_rows t =
      if is_bit_register_type t.register_type
      then some (bit_rows n t.start_address t.bit_values)
      else word_rows n (length t.raw_values) t.formats t.start_address (length t.raw_values)

  unfoldable pub rebuild_logical_rows : Table R → Option (Table R)
  rebuild_logical_rows t = elim (built_rows t) [
    | none ↦ none
    | some rows ↦
        some (record t { logical_rows = rows; raw_index_to_row_index = row_indices 0 rows })
  ]
