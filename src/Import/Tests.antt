-- ===== src/Import/Tests.antt =====
-- A file with a header and two rows, of which one is blank.
use modbus_viewer.Prelude.{◌+◌, ◌≡◌, refl, [], ◌∷◌, length, All}
use modbus_viewer.Prelude.Texts.{Text, codes, text_eq}
use modbus_viewer.Format.Samples.{integers}
use modbus_viewer.Import.Rows.{Characters}
use modbus_viewer.Import.Csv.{
  split_from, split_csv_line, insert_column, has_column, index_columns, missing_from,
  required_columns, parse_csv,
}
use modbus_viewer.Import.Accounting.{IsUsable, parse_csv-IsUsable}

abbrev ascii : Characters
ascii = record { trimmed = λ t. t; to_lower = λ t. t; equal_ignoring_case = text_eq }

abbrev header : Text
header = codes "label,registertype,address"

header_complete :
    missing_from (index_columns ascii 0 (split_csv_line header) []) required_columns ≡ []
unfolding missing_from index_columns split_csv_line split_from insert_column has_column
header_complete = refl

parse_csv-IsUsable_example :
    All IsUsable (parse_csv ascii integers (header ∷ codes "Pump,Coil,+1" ∷ [] ∷ [])).tags
    × (length (parse_csv ascii integers (header ∷ codes "Pump,Coil,+1" ∷ [] ∷ [])).tags
          + length (parse_csv ascii integers (header ∷ codes "Pump,Coil,+1" ∷ [] ∷ [])).errors
        ≡ 1)
parse_csv-IsUsable_example =
    parse_csv-IsUsable ascii integers header (codes "Pump,Coil,+1" ∷ [] ∷ []) header_complete
