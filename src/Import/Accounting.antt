-- ===== src/Import/Accounting.antt =====
-- What core/importer/CsvTagParser.cpp makes of the lines of a file.
use modbus_viewer.Prelude.{
  ℕ, ◌+◌, ◌≡◌, refl, subst, ◌∙◌, inl, inr, false, List, [], ◌∷◌, Option, none, some, if◌then◌else◌,
  arith, length, length-append, All, All-append, Bool-cases,
}
use modbus_viewer.Prelude.Integers.{ℤ, pos, negsuc}
use modbus_viewer.Prelude.Texts.{Text, codes, is_empty}
use modbus_viewer.Format.Settings.{Numerics}
use modbus_viewer.Favorites.Entries.{RegisterDefinition, imported}
use modbus_viewer.Import.Rows.{
  Characters, RowError, missing_label, invalid_address, unrecognized_register_type, Outcome,
  accepted, rejected, ◌>>=◌, require, field, named, register_type_names, natural_address,
  parse_format, parse_labelled, parse_tag_row,
}
use modbus_viewer.Import.Csv.{
  Parsed, bad_row, split_csv_line, index_columns, fields_of, missing_from, required_columns,
  add_row, parse_lines, parse_csv,
}

-- A tag that can be used: it has a label, and an address that is not negative.
pub record IsUsable {R : Type 0} (tag : RegisterDefinition R) : Type 0 where
  pub labelled : is_empty tag.label ≡ false
  pub address : ℕ
  pub located : tag.address ≡ pos address

>>=-eq-accepted :
    {A B : Type 0} (m : Outcome A) (f : A → Outcome B) {b : B}
    → (m >>= f) ≡ accepted b
    → (a : A) × (m ≡ accepted a) × (f a ≡ accepted b)
>>=-eq-accepted (accepted a) f h = (a, refl, h)
>>=-eq-accepted (rejected e) f h = cc

natural_address-pos :
    (error : RowError) (read : Option ℤ) (a : ℤ)
    → require error (natural_address read) ≡ accepted a
    → (k : ℕ) × (a ≡ pos k)
natural_address-pos error none a h = cc
natural_address-pos error (some (pos k)) a h = (k, cc)
natural_address-pos error (some (negsuc k)) a h = cc

-- The lines that are not blank.
abbrev pub filled_lines : Characters → List Text → ℕ
filled_lines chars [] = 0
filled_lines chars (line ∷ lines) =
    if is_empty (chars.trimmed line) then filled_lines chars lines else filled_lines chars lines + 1

module _ {R : Type 0} (chars : Characters) (n : Numerics R) where
  parse_labelled-IsUsable :
      (fields : List (Text × Text)) (tag : RegisterDefinition R)
      → is_empty (chars.trimmed (field fields (codes "label"))) ≡ false
      → parse_labelled chars n fields ≡ accepted tag
      → IsUsable tag
  unfolding parse_labelled
  parse_labelled-IsUsable fields tag b h =
      let text : Text → Text = λ key. chars.trimmed (field fields key) in
      let type_read =
        require (unrecognized_register_type (text (codes "registertype")))
          (named chars register_type_names (text (codes "registertype"))) in
      let address_read =
        require (invalid_address (text (codes "address")))
          (natural_address (n.to_int (text (codes "address")))) in
      let (type, typed, k1) = >>=-eq-accepted type_read _ h in
      let (address, located, k2) = >>=-eq-accepted address_read _ k1 in
      let (format, formatted, k3) = >>=-eq-accepted (parse_format chars n fields) _ k2 in
      let (a, natural) =
        natural_address-pos (invalid_address (text (codes "address")))
          (n.to_int (text (codes "address"))) address located in
      let made : RegisterDefinition R = record {
        label = text (codes "label");
        description = text (codes "description");
        register_type = type;
        address = address;
        format = format;
        source = imported;
      } in
      let same : made ≡ tag = cc in
      subst IsUsable same (record { labelled = b; address = a; located = natural })

  parse_tag_row-IsUsable :
      (fields : List (Text × Text)) (tag : RegisterDefinition R)
      → parse_tag_row chars n fields ≡ accepted tag
      → IsUsable tag
  unfolding parse_tag_row
  parse_tag_row-IsUsable fields tag h =
      elim (Bool-cases (is_empty (chars.trimmed (field fields (codes "label"))))) [
        | inl b ↦ let k : rejected missing_label ≡ accepted tag = rw b at h in cc
        | inr b ↦
            let k : parse_labelled chars n fields ≡ accepted tag = rw b at h in
            parse_labelled-IsUsable fields tag b k
      ]

  -- What has been read so far: usable tags only, and as many tags and errors as rows.
  record IsCounted (rows : ℕ) (result : Parsed R) : Type 0 where
    usable : All IsUsable result.tags
    counted : length result.tags + length result.errors ≡ rows

  add_outcome-IsCounted :
      (rows line_number : ℕ) (fields : List (Text × Text)) (result : Parsed R)
      (outcome : Outcome (RegisterDefinition R))
      → parse_tag_row chars n fields ≡ outcome
      → IsCounted rows result
      → IsCounted (rows + 1) (add_row chars n line_number outcome result)
  unfolding add_row
  add_outcome-IsCounted rows line_number fields result (accepted tag) e h =
      let more = length-append result.tags (tag ∷ []) in
      record {
        usable =
            All-append IsUsable result.tags (tag ∷ []) h.usable
              (parse_tag_row-IsUsable fields tag e, tt);
        counted = omega (arith, more, h.counted);
      }
  add_outcome-IsCounted rows line_number fields result (rejected error) e h =
      let more = length-append result.errors (bad_row line_number error ∷ []) in
      record { usable = h.usable; counted = omega (arith, more, h.counted) }

  parse_lines-IsCounted :
      (columns : List (Text × ℕ)) (line_number : ℕ) (lines : List Text) (rows : ℕ)
      (result : Parsed R)
      → IsCounted rows result
      → IsCounted
          (rows + filled_lines chars lines)
          (parse_lines chars n columns line_number lines result)
  unfolding parse_lines
  parse_lines-IsCounted columns line_number [] rows result h =
      let none_left : rows ≡ rows + 0 = omega arith in subst (λ k. IsCounted k result) none_left h
  parse_lines-IsCounted columns line_number (line ∷ lines) rows result h =
      let fields = fields_of columns (split_csv_line line) in
      elim (Bool-cases (is_empty (chars.trimmed line))) [
        | inl b ↦ rw b (parse_lines-IsCounted columns (line_number + 1) lines rows result h)
        | inr b ↦
            let count : rows + 1 + filled_lines chars lines
                ≡ rows + (filled_lines chars lines + 1) =
              omega arith in
            let added = add_row chars n (line_number + 1) (parse_tag_row chars n fields) result in
            rw b (
              subst (λ k. IsCounted k (parse_lines chars n columns (line_number + 1) lines added))
                count
                (parse_lines-IsCounted columns (line_number + 1) lines (rows + 1) added (
                  add_outcome-IsCounted rows (line_number + 1) fields result
                    (parse_tag_row chars n fields) refl h)))
      ]

  -- From a file whose header names every required column, each line after it that is not blank gives
  -- either one tag or one error, and every tag has a label and an address that is not negative.
  pub parse_csv-IsUsable :
      (header : Text) (lines : List Text)
      → missing_from (index_columns chars 0 (split_csv_line header) []) required_columns ≡ []
      → All IsUsable (parse_csv chars n (header ∷ lines)).tags
        × (length (parse_csv chars n (header ∷ lines)).tags
              + length (parse_csv chars n (header ∷ lines)).errors
            ≡ filled_lines chars lines)
  unfolding parse_csv
  parse_csv-IsUsable header lines h =
      let columns = index_columns chars 0 (split_csv_line header) [] in
      let start : Parsed R = record { tags = []; errors = [] } in
      let counted =
        parse_lines-IsCounted columns 1 lines 0 start (record { usable = tt; counted = refl }) in
      rw h (counted.usable, counted.counted ∙ omega arith)
