-- ===== src/Import/Csv.antt =====
-- core/importer/CsvTagParser.cpp, on the lines that `QTextStream` reads.
use modbus_viewer.Prelude.{
  ℕ, ◌+◌, ◌==◌, Bool, true, false, List, [], ◌∷◌, ◌++◌, map, if◌then◌else◌, get_or,
}
use modbus_viewer.Prelude.Texts.{Text, codes, text_eq, is_empty}
use modbus_viewer.Format.Settings.{Numerics}
use modbus_viewer.Favorites.Entries.{RegisterDefinition}
use modbus_viewer.Import.Rows.{Characters, RowError, Outcome, accepted, rejected, parse_tag_row}

abbrev pub comma : ℕ
comma = 0x2c

-- `split(',')` of a line that starts with the units collected so far.
unfoldable pub split_from : Text → Text → List Text
split_from collected [] = collected ∷ []
split_from collected (a ∷ rest) =
    if a == comma then collected ∷ split_from [] rest else split_from (collected ++ (a ∷ [])) rest

unfoldable pub split_csv_line : Text → List Text
split_csv_line line = split_from [] line

-- `columnIndex[name] = i`.
unfoldable pub insert_column : Text → ℕ → List (Text × ℕ) → List (Text × ℕ)
insert_column name i [] = (name, i) ∷ []
insert_column name i ((k, j) ∷ columns) =
    if text_eq k name then (name, i) ∷ columns else (k, j) ∷ insert_column name i columns

unfoldable pub has_column : List (Text × ℕ) → Text → Bool
has_column [] name = false
has_column ((k, j) ∷ columns) name = if text_eq k name then true else has_column columns name

abbrev pub required_columns : List Text
required_columns = codes "label" ∷ codes "registertype" ∷ codes "address" ∷ []

unfoldable pub missing_from : List (Text × ℕ) → List Text → List Text
missing_from columns [] = []
missing_from columns (name ∷ names) =
    if has_column columns name
    then missing_from columns names
    else name ∷ missing_from columns names

pub data ImportError : Type 0 where
  empty_file : ImportError
  missing_columns : List Text → ImportError
  bad_row : ℕ → RowError → ImportError

-- `TagParseResult`.
pub record Parsed (R : Type 0) : Type 0 where
  pub tags : List (RegisterDefinition R)
  pub errors : List ImportError

module _ (chars : Characters) where
  unfoldable pub index_columns : ℕ → List Text → List (Text × ℕ) → List (Text × ℕ)
  index_columns i [] columns = columns
  index_columns i (name ∷ names) columns =
      index_columns (i + 1) names (insert_column (chars.to_lower (chars.trimmed name)) i columns)

unfoldable pub fields_of : List (Text × ℕ) → List Text → List (Text × Text)
fields_of columns values = map (λ column. (column.0, get_or values column.1 [])) columns

module _ {R : Type 0} (chars : Characters) (n : Numerics R) where
  unfoldable pub add_row : ℕ → Outcome (RegisterDefinition R) → Parsed R → Parsed R
  add_row line_number (accepted tag) result = record result { tags = result.tags ++ (tag ∷ []) }
  add_row line_number (rejected error) result = record result {
    errors = result.errors ++ (bad_row line_number error ∷ []);
  }

  -- The loop over the lines after the header, with the number of the line before.
  unfoldable pub parse_lines : List (Text × ℕ) → ℕ → List Text → Parsed R → Parsed R
  parse_lines columns line_number [] result = result
  parse_lines columns line_number (line ∷ lines) result =
      let row = parse_tag_row chars n (fields_of columns (split_csv_line line)) in
      parse_lines columns (line_number + 1) lines
        (if is_empty (chars.trimmed line) then result else add_row (line_number + 1) row result)

  unfoldable pub parse_csv : List Text → Parsed R
  parse_csv [] = record { tags = []; errors = empty_file ∷ [] }
  parse_csv (header ∷ lines) =
      let columns = index_columns chars 0 (split_csv_line header) [] in
      let missing = missing_from columns required_columns in
      if is_empty missing
      then parse_lines columns 1 lines (record { tags = []; errors = [] })
      else record { tags = []; errors = missing_columns missing ∷ [] }
