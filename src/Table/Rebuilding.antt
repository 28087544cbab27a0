-- ===== src/Table/Rebuilding.antt =====
-- `rebuildLogicalRows` of app-lib/models/RegisterTableModel.cpp, as a function of the other fields.
use modbus_viewer.Prelude.{
  ◌+◌, ◌≡◌, refl, ap, subst, ◌∙◌, inl, inr, false, List, some, arith, length, Bool-cases,
}
use modbus_viewer.Model.{is_bit_register_type}
use modbus_viewer.Format.Settings.{Numerics}
use modbus_viewer.Table.Rows.{
  LogicalRow, Table, bit_rows, word_rows, row_indices, built_rows, rebuild_logical_rows,
}
use modbus_viewer.Table.Spans.{Tiles, word_rows-Tiles, length-row_indices}

module _ {R : Type 0} (n : Numerics R) where
  -- The rows and the index map are those that a rebuild gives.
  unfoldable pub IsBuilt : Table R → Type 0
  IsBuilt t = rebuild_logical_rows n t ≡ some t

  unfoldable pub rows_of : Table R → List (LogicalRow R) → Table R
  rows_of t rows = record t { logical_rows = rows; raw_index_to_row_index = row_indices 0 rows }

  pub rebuild_step :
      (t : Table R) (rows : List (LogicalRow R))
      → built_rows n t ≡ some rows
      → rebuild_logical_rows n t ≡ some (rows_of t rows)
  unfolding rebuild_logical_rows rows_of
  rebuild_step t rows e = rw (e, rebuild_logical_rows) refl

  built_rows-total : (t : Table R) → (rows : List (LogicalRow R)) × (built_rows n t ≡ some rows)
  unfolding built_rows
  built_rows-total t = elim (Bool-cases (is_bit_register_type t.register_type)) [
    | inl e ↦ rw e (bit_rows n t.start_address t.bit_values, refl)
    | inr e ↦
        let m = length t.raw_values in
        let (rows, k, tiles) = word_rows-Tiles n m t.formats t.start_address m (omega arith) in
        rw e (rows, k)
  ]

  -- The rows of a table are rebuilt from its other fields.
  built_rows_again :
      (t : Table R) (rows more : List (LogicalRow R))
      → built_rows n t ≡ some rows
      → built_rows n (rows_of t more) ≡ some rows
  unfolding built_rows rows_of
  built_rows_again t rows more e = e

  rows_of_twice :
      (t : Table R) (rows : List (LogicalRow R)) → rows_of (rows_of t rows) rows ≡ rows_of t rows
  unfolding rows_of
  rows_of_twice t rows = refl

  -- A rebuild succeeds on every table, and a second one changes nothing.
  pub rebuild_logical_rows-IsBuilt :
      (t : Table R) → (built : Table R) × (rebuild_logical_rows n t ≡ some built) × IsBuilt built
  unfolding IsBuilt
  rebuild_logical_rows-IsBuilt t =
      let (rows, e) = built_rows-total t in
      (
        rows_of t rows,
        rebuild_step t rows e,
        rebuild_step (rows_of t rows) rows (built_rows_again t rows rows e)
            ∙ ap some (rows_of_twice t rows),
      )

  pub IsBuilt-rebuild_logical_rows :
      (t built : Table R) → rebuild_logical_rows n t ≡ some built → IsBuilt built
  IsBuilt-rebuild_logical_rows t built e =
      let (other, k, h) = rebuild_logical_rows-IsBuilt t in
      let same : other ≡ built = cc in subst IsBuilt same h

  pub IsBuilt-rows_of :
      (t : Table R)
      → IsBuilt t
      → (rows : List (LogicalRow R)) × (built_rows n t ≡ some rows) × (rows_of t rows ≡ t)
  unfolding IsBuilt
  IsBuilt-rows_of t h =
      let (rows, e) = built_rows-total t in let k = rebuild_step t rows e in (rows, e, cc)

  pub word_rows_lem :
      (t : Table R) (rows : List (LogicalRow R))
      → is_bit_register_type t.register_type ≡ false
      → built_rows n t ≡ some rows
      → Tiles t.start_address rows (t.start_address + length t.raw_values)
  unfolding built_rows
  word_rows_lem t rows w e =
      let m = length t.raw_values in
      let (found, k, tiles) = word_rows-Tiles n m t.formats t.start_address m (omega arith) in
      let here : word_rows n m t.formats t.start_address m ≡ some rows = rw w at e in
      let same : found ≡ rows = cc in
      subst (λ r. Tiles t.start_address r (t.start_address + m)) same tiles

  -- On registers, the index map has one entry for each.
  pub length-raw_index_to_row_index :
      (t : Table R)
      → is_bit_register_type t.register_type ≡ false
      → IsBuilt t
      → length t.raw_index_to_row_index ≡ length t.raw_values
  unfolding rows_of
  length-raw_index_to_row_index t w h =
      let (rows, e, same) = IsBuilt-rows_of t h in
      let measured =
        length-row_indices 0 t.start_address rows (t.start_address + length t.raw_values)
          (word_rows_lem t rows w e) in
      let index : row_indices 0 rows ≡ t.raw_index_to_row_index =
        ap (λ u. u.raw_index_to_row_index) same in
      subst (λ l. length l ≡ length t.raw_values) index (omega (arith, measured))
