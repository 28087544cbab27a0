-- ===== src/Table/Operations.antt =====
-- The operations of app-lib/models/RegisterTableModel.cpp. Each returns the new state with the signals
-- that it emits; `none` is a read outside a list.
use modbus_viewer.Prelude.{
  ℕ, ◌+◌, ◌-◌, Bool, true, false, ◌&&◌, not, List, [], ◌∷◌, ◌++◌, map, Option, none, some, ◌>>=◌,
  ◌==◌, if◌then◌else◌, length, get_elem?,
}
use modbus_viewer.Prelude.Integers.{ℤ, unsigned16}
use modbus_viewer.Prelude.Texts.{Text, is_empty}
use modbus_viewer.Model.{RegisterType, is_bit_register_type, type_eq, coil}
use modbus_viewer.Addresses.{AddressConvention, convention_eq}
use modbus_viewer.Format.Settings.{FormatSettings, Numerics}
use modbus_viewer.Format.Values.{parse_value}
use modbus_viewer.Table.Rows.{Table, rebuild_logical_rows}

pub data TableSignal : Type 0 where
  stale_changed model_reset register_type_changed address_convention_changed : TableSignal
  data_changed : ℕ → ℕ → TableSignal
  write_requested : ℕ → ℕ → TableSignal
  coil_write_requested : ℕ → Bool → TableSignal

abbrev pub bool_eq : Bool → Bool → Bool
bool_eq true b = b
bool_eq false b = not b

-- `firstChanged` and `lastChanged` after a change at `i`.
unfoldable pub widen : ℕ → Option (ℕ × ℕ) → Option (ℕ × ℕ)
widen i none = some (i, i)
widen i (some (first, last)) = some (first, i)

-- The loop that compares the values from index `i` on and takes over those that differ.
unfoldable pub diff {ℓ} :
    {A : Type ℓ} → (A → A → Bool) → ℕ → List A → List A → Option (ℕ × ℕ) → List A × Option (ℕ × ℕ)
diff eq i [] bs range = ([], range)
diff eq i (a ∷ as') [] range = (a ∷ as', range)
diff eq i (a ∷ as') (b ∷ bs) range =
    let rest = diff eq (i + 1) as' bs (if eq a b then range else widen i range) in
    ((if eq a b then a else b) ∷ rest.0, rest.1)

-- The rows that `dataChanged` names for a range of changed registers.
unfoldable pub changed_rows : List ℕ → Option (ℕ × ℕ) → Option (List TableSignal)
changed_rows row_of none = some []
changed_rows row_of (some (first, last)) = do
  first_row ← get_elem? row_of first
  last_row ← get_elem? row_of last
  some (data_changed first_row last_row ∷ [])

unfoldable pub changed_bits : Option (ℕ × ℕ) → List TableSignal
changed_bits none = []
changed_bits (some (first, last)) = data_changed first last ∷ []

unfoldable pub stale_signal : {R : Type 0} → Table R → List TableSignal
stale_signal t = if t.stale then stale_changed ∷ [] else []

module _ {R : Type 0} (n : Numerics R) where
  -- `beginResetModel`, the rebuild and `endResetModel`.
  unfoldable pub reset : Table R → List TableSignal → Option (Table R × List TableSignal)
  reset t signals = do built ← rebuild_logical_rows n t; some (built, signals ++ (model_reset ∷ []))

  unfoldable pub update_registers : ℕ → List ℕ → Table R → Option (Table R × List TableSignal)
  update_registers start_address new_raw t =
      let fresh = record t { stale = false } in
      let (merged, range) = diff ◌==◌ 0 t.raw_values new_raw none in
      if t.start_address == start_address && (length t.raw_values == length new_raw)
      then (changed_rows t.raw_index_to_row_index range >>= λ changed.
          some (record fresh { raw_values = merged }, stale_signal t ++ changed))
      else reset (record fresh { start_address = start_address; raw_values = new_raw })
          (stale_signal t)

  unfoldable pub set_registers : ℕ → List ℤ → Table R → Option (Table R × List TableSignal)
  set_registers start_address values t = update_registers start_address (map unsigned16 values) t

  unfoldable pub set_bits : ℕ → List Bool → Table R → Option (Table R × List TableSignal)
  set_bits start_address values t =
      let fresh = record t { stale = false } in
      let (merged, range) = diff bool_eq 0 t.bit_values values none in
      if t.start_address == start_address && (length t.bit_values == length values)
      then some (record fresh { bit_values = merged }, stale_signal t ++ changed_bits range)
      else reset (record fresh { start_address = start_address; bit_values = values })
          (stale_signal t)

  -- One request for each register, from the row's address on.
  unfoldable pub write_requests : ℕ → List ℕ → List TableSignal
  write_requests address [] = []
  write_requests address (v ∷ vs) = write_requested address v ∷ write_requests (address + 1) vs

  unfoldable pub requests_of : ℕ → Option (List ℕ) → List TableSignal
  requests_of address none = []
  requests_of address (some raw) = write_requests address raw

  unfoldable pub set_value_at : ℕ → Text → Table R → List TableSignal
  set_value_at row text t = elim (get_elem? t.logical_rows row) [
    | none ↦ []
    | some r ↦
        if is_bit_register_type t.register_type
        then []
        else requests_of r.address (parse_value n r.settings text)
  ]

  unfoldable pub set_bit_at : ℕ → Bool → Table R → List TableSignal
  set_bit_at row value t = elim (get_elem? t.logical_rows row) [
    | none ↦ []
    | some r ↦
        if type_eq t.register_type coil then coil_write_requested r.address value ∷ [] else []
  ]

  -- `m_formats[address] = settings`.
  unfoldable pub insert_format :
      ℕ → FormatSettings R → List (ℕ × FormatSettings R) → List (ℕ × FormatSettings R)
  insert_format address settings [] = (address, settings) ∷ []
  insert_format address settings ((a, s) ∷ formats) =
      if a == address
      then (address, settings) ∷ formats
      else (a, s) ∷ insert_format address settings formats

  unfoldable pub set_format_at :
      ℕ → FormatSettings R → Table R → Option (Table R × List TableSignal)
  set_format_at row settings t = elim (get_elem? t.logical_rows row) [
    | none ↦ some (t, [])
    | some r ↦
        if is_bit_register_type t.register_type
        then some (t, [])
        else reset (record t { formats = insert_format r.address settings t.formats }) []
  ]

  unfoldable pub mark_stale : Table R → Table R × List TableSignal
  mark_stale t = if t.stale then (t, []) else (record t { stale = true }, stale_changed ∷ [])

  unfoldable pub set_address_convention : AddressConvention → Table R → Table R × List TableSignal
  set_address_convention convention t =
      if convention_eq t.address_convention convention then (t, []) else (
        record t { address_convention = convention },
        address_convention_changed
            ∷ (if is_empty t.logical_rows
                then []
                else data_changed 0 (length t.logical_rows - 1) ∷ []),
      )

  unfoldable pub set_register_type : RegisterType → Table R → Option (Table R × List TableSignal)
  set_register_type type t =
      if type_eq t.register_type type
      then some (t, [])
      else (reset
            (record t { register_type = type; raw_values = []; bit_values = []; formats = [] }) []
          >>= λ done. some (done.0, done.1 ++ (register_type_changed ∷ [])))
