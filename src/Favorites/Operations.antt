-- ===== src/Favorites/Operations.antt =====
-- The operations of app-lib/models/FavoritesModel.cpp. Each returns the new state with the signals that
-- it emits. A row is a natural number: a negative one has no entry either.
use modbus_viewer.Prelude.{
  ℕ, zero, suc, ◌+◌, ◌-◌, Bool, true, false, List, [], ◌∷◌, ◌++◌, map, Option, none, some, ◌>>=◌,
  ◌==◌, ltb, if◌then◌else◌, length, get_elem?, set, replicate, drop,
}
use modbus_viewer.Prelude.Integers.{ℤ, pos, unsigned16}
use modbus_viewer.Prelude.Texts.{Text, is_empty}
use modbus_viewer.Model.{RegisterType, is_bit_register_type, type_eq, coil}
use modbus_viewer.Addresses.{AddressConvention, convention_eq, add_base}
use modbus_viewer.Coalesce.{PollTarget}
use modbus_viewer.Format.Settings.{FormatSettings, Numerics, default_format_settings}
use modbus_viewer.Format.Values.{parse_value, numeric_value}
use modbus_viewer.Favorites.Entries.{
  ad_hoc, RegisterDefinition, register_span, Entry, Favorites, history_capacity,
}

pub data FavoritesSignal : Type 0 where
  row_inserted row_removed row_changed : ℕ → FavoritesSignal
  addresses_changed : ℕ → ℕ → FavoritesSignal
  entries_reset address_convention_changed : FavoritesSignal
  write_requested : ℤ → ℕ → FavoritesSignal
  coil_write_requested : ℤ → Bool → FavoritesSignal

-- An entry with no values read yet.
unfoldable pub new_entry : {R : Type 0} → RegisterDefinition R → Entry R
new_entry d = record {
  definition = d;
  raw_values = if is_bit_register_type d.register_type then [] else replicate (register_span d) 0;
  history = [];
  bit_value = false;
  stale = false;
}

unfoldable pub append_entry :
    {R : Type 0} → Entry R → Favorites R → Favorites R × List FavoritesSignal
append_entry entry f =
    (record f { entries = f.entries ++ (entry ∷ []) }, row_inserted (length f.entries) ∷ [])

-- The argument is `tagModel->tagAt(row)`, and `none` is no tag model.
unfoldable pub add_from_tag :
    {R : Type 0} → Option (RegisterDefinition R) → Favorites R → Favorites R × List FavoritesSignal
add_from_tag none f = (f, [])
add_from_tag (some d) f = append_entry (new_entry d) f

unfoldable pub remove_row {ℓ} : {A : Type ℓ} → ℕ → List A → List A
remove_row i [] = []
remove_row zero (x ∷ xs) = xs
remove_row (suc i) (x ∷ xs) = x ∷ remove_row i xs

unfoldable pub remove_at : {R : Type 0} → ℕ → Favorites R → Favorites R × List FavoritesSignal
remove_at row f =
    if ltb row (length f.entries)
    then (record f { entries = remove_row row f.entries }, row_removed row ∷ [])
    else (f, [])

unfoldable pub clear : {R : Type 0} → Favorites R → Favorites R × List FavoritesSignal
clear f = if is_empty f.entries then (f, []) else (record f { entries = [] }, entries_reset ∷ [])

unfoldable pub set_bit_at : {R : Type 0} → ℕ → Bool → Favorites R → List FavoritesSignal
set_bit_at row value f = elim (get_elem? f.entries row) [
  | none ↦ []
  | some e ↦
      if type_eq e.definition.register_type coil
      then coil_write_requested e.definition.address value ∷ []
      else []
]

unfoldable pub format_settings_at : {R : Type 0} → ℕ → Favorites R → Option (FormatSettings R)
format_settings_at row f = elim (get_elem? f.entries row) [
  | none ↦ none
  | some e ↦ some e.definition.format
]

unfoldable pub reformatted : {R : Type 0} → FormatSettings R → Entry R → Entry R
reformatted settings e =
    let d = record e.definition { format = settings } in
    record e { definition = d; raw_values = replicate (register_span d) 0; history = [] }

unfoldable pub set_format_at :
    {R : Type 0} → ℕ → FormatSettings R → Favorites R → Favorites R × List FavoritesSignal
set_format_at row settings f = elim (get_elem? f.entries row) [
  | none ↦ (f, [])
  | some e ↦
      (record f { entries = set f.entries row (reformatted settings e) }, row_changed row ∷ [])
]

unfoldable pub set_address_convention :
    {R : Type 0} → AddressConvention → Favorites R → Favorites R × List FavoritesSignal
set_address_convention convention f =
    if convention_eq f.address_convention convention then (f, []) else (
      record f { address_convention = convention },
      address_convention_changed
          ∷ (if is_empty f.entries then [] else addresses_changed 0 (length f.entries - 1) ∷ []),
    )

unfoldable pub poll_target_of : {R : Type 0} → ℕ → Entry R → PollTarget
poll_target_of unit_id e = record {
  unit_id = unit_id;
  register_type = e.definition.register_type;
  start_address = unsigned16 e.definition.address;
  quantity = unsigned16 (pos (register_span e.definition));
}

unfoldable pub build_poll_targets : {R : Type 0} → ℕ → Favorites R → List PollTarget
build_poll_targets unit_id f = map (poll_target_of unit_id) f.entries

unfoldable pub apply_bit_update :
    {R : Type 0} → ℕ → List Bool → Favorites R → Favorites R × List FavoritesSignal
apply_bit_update row [] f = (f, [])
apply_bit_update row (value ∷ values) f = elim (get_elem? f.entries row) [
  | none ↦ (f, [])
  | some e ↦ (
    record f { entries = set f.entries row (record e { bit_value = value; stale = false }) },
    row_changed row ∷ [],
  )
]

unfoldable pub mark_stale : {R : Type 0} → ℕ → Favorites R → Favorites R × List FavoritesSignal
mark_stale row f = elim (get_elem? f.entries row) [
  | none ↦ (f, [])
  | some e ↦ if e.stale then (f, []) else (
    record f { entries = set f.entries row (record e { stale = true }) },
    row_changed row ∷ [],
  )
]

-- `append`, and `removeFirst` above the capacity.
unfoldable pub push_history {ℓ} : {A : Type ℓ} → A → List A → List A
push_history value history =
    let longer = history ++ (value ∷ []) in
    if ltb history_capacity (length longer) then drop 1 longer else longer

module _ {R : Type 0} (n : Numerics R) where
  unfoldable pub add_ad_hoc : RegisterType → ℤ → Favorites R → Favorites R × List FavoritesSignal
  add_ad_hoc type address f =
      append_entry
        (new_entry (record {
          label = n.number address;
          description = [];
          register_type = type;
          address = address;
          format = default_format_settings n;
          source = ad_hoc;
        }))
        f

  unfoldable pub write_requests : ℤ → ℕ → List ℕ → List FavoritesSignal
  write_requests address k [] = []
  write_requests address k (v ∷ vs) =
      write_requested (add_base k address) v ∷ write_requests address (k + 1) vs

  unfoldable pub requests_of : ℤ → Option (List ℕ) → List FavoritesSignal
  requests_of address none = []
  requests_of address (some raw) = write_requests address 0 raw

  unfoldable pub set_value_at : ℕ → Text → Favorites R → List FavoritesSignal
  set_value_at row text f = elim (get_elem? f.entries row) [
    | none ↦ []
    | some e ↦
        if is_bit_register_type e.definition.register_type
        then []
        else requests_of e.definition.address (parse_value n e.definition.format text)
  ]

  -- The entry with new values, whose number is that of its registers.
  unfoldable pub take_values : List ℕ → Entry R → Option (Entry R)
  take_values values e =
      let fresh = record e { raw_values = values; stale = false } in
      if is_bit_register_type e.definition.register_type then some fresh else do
        value ← numeric_value n e.definition.format values
        some (record fresh { history = push_history value e.history })

  -- `none` where `numericValue` reads outside the values.
  unfoldable pub apply_register_update :
      ℕ → List ℕ → Favorites R → Option (Favorites R × List FavoritesSignal)
  apply_register_update row values f = elim (get_elem? f.entries row) [
    | none ↦ some (f, [])
    | some e ↦
        if length values == register_span e.definition
        then (take_values values e >>= λ taken.
            some (record f { entries = set f.entries row taken }, row_changed row ∷ []))
        else some (f, [])
  ]
