-- ===== src/Table/Reaching.antt =====
-- app-lib/models/RegisterTableModel.cpp: the tables that its operations make from the empty one.
use modbus_viewer.Prelude.{ℕ, ◌≡◌, refl, Bool, false, List, [], some}
use modbus_viewer.Prelude.Integers.{ℤ}
use modbus_viewer.Model.{RegisterType, holding_register, is_bit_register_type}
use modbus_viewer.Addresses.{AddressConvention, pdu}
use modbus_viewer.Format.Settings.{FormatSettings, Numerics}
use modbus_viewer.Table.Rows.{Table, word_rows, row_indices, built_rows, rebuild_logical_rows}
use modbus_viewer.Table.Operations.{
  TableSignal, set_registers, set_bits, set_format_at, mark_stale, set_address_convention,
  set_register_type,
}
use modbus_viewer.Table.Rebuilding.{IsBuilt}
use modbus_viewer.Table.Keeping.{
  update_registers-IsBuilt, set_bits-IsBuilt, set_format_at-IsBuilt, set_register_type-IsBuilt,
  set_address_convention-IsBuilt, mark_stale-IsBuilt,
}
use modbus_viewer.Table.View.{Variant, TableRole, table_data}
use modbus_viewer.Table.Display.{table_data-total}

-- A new table.
abbrev pub empty_table : {R : Type 0} → Table R
empty_table = record {
  start_address = 0;
  raw_values = [];
  bit_values = [];
  formats = [];
  address_convention = pdu;
  register_type = holding_register;
  stale = false;
  logical_rows = [];
  raw_index_to_row_index = [];
}

-- What the poll engine and the user do to a table. `none` of an operation is a read outside a list.
pub data TableStep {R : Type 0} (n : Numerics R) : Table R → Table R → Type 0 where
  registers :
      (start_address : ℕ) (values : List ℤ) (t u : Table R) (signals : List TableSignal)
      → set_registers n start_address values t ≡ some (u, signals)
      → TableStep n t u
  bits :
      (start_address : ℕ) (values : List Bool) (t u : Table R) (signals : List TableSignal)
      → set_bits n start_address values t ≡ some (u, signals)
      → TableStep n t u
  format_change :
      (row : ℕ) (settings : FormatSettings R) (t u : Table R) (signals : List TableSignal)
      → set_format_at n row settings t ≡ some (u, signals)
      → TableStep n t u
  type_change :
      (type : RegisterType) (t u : Table R) (signals : List TableSignal)
      → set_register_type n type t ≡ some (u, signals)
      → TableStep n t u
  convention_change :
      (convention : AddressConvention) (t : Table R)
      → TableStep n t (set_address_convention n convention t).0
  stale_mark : (t : Table R) → TableStep n t (mark_stale n t).0

pub data TableReach {R : Type 0} (n : Numerics R) : Table R → Type 0 where
  new : TableReach n empty_table
  next : {t u : Table R} → TableReach n t → TableStep n t u → TableReach n u

module _ {R : Type 0} (n : Numerics R) where
  empty_table-IsBuilt : IsBuilt n empty_table
  unfolding IsBuilt rebuild_logical_rows built_rows is_bit_register_type word_rows row_indices
  empty_table-IsBuilt = refl

  TableStep-IsBuilt : {t u : Table R} → TableStep n t u → IsBuilt n t → IsBuilt n u
  unfolding set_registers
  TableStep-IsBuilt (registers start_address values t u signals e) h =
      update_registers-IsBuilt n start_address _ t u signals e h
  TableStep-IsBuilt (bits start_address values t u signals e) h =
      set_bits-IsBuilt n start_address values t u signals e h
  TableStep-IsBuilt (format_change row settings t u signals e) h =
      set_format_at-IsBuilt n row settings t u signals e h
  TableStep-IsBuilt (type_change type t u signals e) h =
      set_register_type-IsBuilt n type t u signals e h
  TableStep-IsBuilt (convention_change convention t) h =
      set_address_convention-IsBuilt n convention t h
  TableStep-IsBuilt (stale_mark t) h = mark_stale-IsBuilt n t h

  TableReach-IsBuilt : {t : Table R} → TableReach n t → IsBuilt n t
  TableReach-IsBuilt new = empty_table-IsBuilt
  TableReach-IsBuilt (next r step) = TableStep-IsBuilt step (TableReach-IsBuilt r)

  -- In every table that the operations make from a new one, the rows and the index map are those that
  -- a rebuild gives, and `data` answers for every row index and role: `formatValue` is never given
  -- fewer registers than it reads.
  pub TableReach-table_data :
      (t : Table R) (row : ℕ) (role : TableRole)
      → TableReach n t
      → (rebuild_logical_rows n t ≡ some t) × (v : Variant R) × (table_data n t row role ≡ some v)
  unfolding IsBuilt
  TableReach-table_data t row role r =
      let built = TableReach-IsBuilt r in
      let (v, k) = table_data-total n t row role built in (built, v, k)
