-- ===== src/Favorites/View.antt =====
-- `data` and `rowCount` of app-lib/models/FavoritesModel.cpp.
use modbus_viewer.Prelude.{ℕ, Option, none, some, ◌>>=◌, if◌then◌else◌, length, get_elem?}
use modbus_viewer.Prelude.Texts.{Text}
use modbus_viewer.Model.{is_bit_register_type, is_writable_register_type}
use modbus_viewer.Addresses.{display_address}
use modbus_viewer.Format.Settings.{Numerics}
use modbus_viewer.Format.Values.{format_value}
use modbus_viewer.Table.View.{Variant, invalid, text, truth, reals, on_off}
use modbus_viewer.Favorites.Entries.{Entry, Favorites}

pub data FavoritesRole : Type 0 where
  label_role description_role address_role value_role unit_role stale_role is_bit_role
        bool_value_role writable_role history_role other_role :
      FavoritesRole

unfoldable pub row_count : {R : Type 0} → Favorites R → ℕ
row_count f = length f.entries

module _ {R : Type 0} (n : Numerics R) where
  unfoldable pub entry_text : Entry R → Option Text
  entry_text e =
      if is_bit_register_type e.definition.register_type
      then some (on_off e.bit_value)
      else format_value n e.definition.format e.raw_values

  -- `none` where `formatValue` reads outside the values of the entry.
  unfoldable pub entry_data : Favorites R → FavoritesRole → Entry R → Option (Variant R)
  entry_data f role e =
      let d = e.definition in
      elim role [
        | label_role ↦ some (text d.label)
        | description_role ↦ some (text d.description)
        | address_role ↦
            some (text (n.number (display_address d.register_type d.address f.address_convention)))
        | value_role ↦ (entry_text e >>= λ shown. some (text shown))
        | unit_role ↦ some (text d.format.unit)
        | stale_role ↦ some (truth e.stale)
        | is_bit_role ↦ some (truth (is_bit_register_type d.register_type))
        | bool_value_role ↦ some (truth e.bit_value)
        | writable_role ↦ some (truth (is_writable_register_type d.register_type))
        | history_role ↦ some (reals e.history)
        | other_role ↦ some invalid
      ]

  unfoldable pub favorites_data : Favorites R → ℕ → FavoritesRole → Option (Variant R)
  favorites_data f row role = elim (get_elem? f.entries row) [
    | none ↦ some invalid
    | some e ↦ entry_data f role e
  ]
