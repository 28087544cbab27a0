-- ===== src/Table/Tests.antt =====
-- Values of tests/test_register_table_model.cpp, with integers in the place of `double`.
use modbus_viewer.Prelude.{◌≡◌, refl, true, false, List, [], ◌∷◌, some}
use modbus_viewer.Prelude.Integers.{unsigned16, ℤ, pos}
use modbus_viewer.Model.{holding_register, is_bit_register_type}
use modbus_viewer.Addresses.{pdu}
use modbus_viewer.Format.Words.{ByteOrder, cdab}
use modbus_viewer.Format.Settings.{
  DisplayFormat, int32_signed, FormatSettings, register_span_for, default_format_settings,
}
use modbus_viewer.Format.Samples.{integers}
use modbus_viewer.Table.Rows.{
  Table, format_at, row_at, word_rows, row_indices, built_rows, rebuild_logical_rows,
}
use modbus_viewer.Table.Operations.{TableSignal, update_registers}
use modbus_viewer.Table.Rebuilding.{IsBuilt}
use modbus_viewer.Table.Updates.{update_registers-rebuild_logical_rows}
use modbus_viewer.Table.View.{Variant, value_role, table_data}
use modbus_viewer.Table.Reaching.{empty_table, new, next, registers, TableReach-table_data}
use modbus_viewer.Table.Operations.{set_registers, reset, stale_signal, model_reset}

abbrev wide : FormatSettings ℤ
wide = record { format = int32_signed; byte_order = cdab; scale = pos 1; offset = pos 0; unit = [] }

-- Three registers, of which the first two are one row.
abbrev three : Table ℤ
three = record {
  start_address = 10;
  raw_values = 1 ∷ 2 ∷ 3 ∷ [];
  bit_values = [];
  formats = (10, wide) ∷ [];
  address_convention = pdu;
  register_type = holding_register;
  stale = true;
  logical_rows =
      record { address = 10; span = 2; settings = wide }
      ∷ record {
        address = 12;
        span = 1;
        settings = record {
          format = DisplayFormat.unsigned_decimal;
          byte_order = ByteOrder.abcd;
          scale = pos 1;
          offset = pos 0;
          unit = [];
        };
      }
      ∷ [];
  raw_index_to_row_index = 0 ∷ 0 ∷ 1 ∷ [];
}

three-IsBuilt : IsBuilt integers three
unfolding IsBuilt rebuild_logical_rows built_rows is_bit_register_type word_rows row_at format_at
    register_span_for default_format_settings row_indices
three-IsBuilt = refl

three_words : is_bit_register_type three.register_type ≡ false
unfolding is_bit_register_type
three_words = refl

update_registers-rebuild_logical_rows_example :
    (updated : Table ℤ) × (signals : List TableSignal) × (update_registers integers 10
        (1 ∷ 9 ∷ 3 ∷ [])
        three
      ≡ some (updated, signals))
    × (rebuild_logical_rows integers
          (record three { stale = false; start_address = 10; raw_values = 1 ∷ 9 ∷ 3 ∷ [] })
        ≡ some updated)
update_registers-rebuild_logical_rows_example =
    update_registers-rebuild_logical_rows integers three 10 (1 ∷ 9 ∷ 3 ∷ []) three_words
      three-IsBuilt

-- A new table that has read one register.
abbrev loaded : Table ℤ
loaded = record {
  start_address = 10;
  raw_values = 7 ∷ [];
  bit_values = [];
  formats = [];
  address_convention = pdu;
  register_type = holding_register;
  stale = false;
  logical_rows =
      record {
        address = 10;
        span = 1;
        settings = record {
          format = DisplayFormat.unsigned_decimal;
          byte_order = ByteOrder.abcd;
          scale = pos 1;
          offset = pos 0;
          unit = [];
        };
      }
      ∷ [];
  raw_index_to_row_index = 0 ∷ [];
}

loaded_by_read :
    set_registers integers 10 (pos 7 ∷ []) empty_table ≡ some (loaded, model_reset ∷ [])
unfolding set_registers update_registers unsigned16 reset stale_signal rebuild_logical_rows
    built_rows is_bit_register_type word_rows row_at format_at register_span_for
    default_format_settings row_indices
loaded_by_read = refl

TableReach-table_data_example :
    (rebuild_logical_rows integers loaded ≡ some loaded)
    × (v : Variant ℤ) × (table_data integers loaded 0 value_role ≡ some v)
TableReach-table_data_example =
    TableReach-table_data integers loaded 0 value_role
      (next new (registers 10 (pos 7 ∷ []) empty_table loaded (model_reset ∷ []) loaded_by_read))
