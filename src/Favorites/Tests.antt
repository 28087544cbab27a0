-- ===== src/Favorites/Tests.antt =====
-- Values of tests/test_favorites_model.cpp, with integers in the place of `double`.
use modbus_viewer.Prelude.{
  ℕ, ◌≡◌, refl, true, false, List, [], ◌∷◌, ◌++◌, some, arith, get_elem?, All, length,
}
use modbus_viewer.Prelude.Windows.{last}
use modbus_viewer.Prelude.Integers.{ℤ, pos}
use modbus_viewer.Model.{holding_register, is_bit_register_type}
use modbus_viewer.Addresses.{pdu}
use modbus_viewer.Format.Words.{ByteOrder}
use modbus_viewer.Format.Settings.{DisplayFormat, register_span_for}
use modbus_viewer.Format.Samples.{integers}
use modbus_viewer.Table.View.{Variant}
use modbus_viewer.Favorites.Entries.{TagSource, register_span, Entry, Favorites, history_capacity}
use modbus_viewer.Favorites.Operations.{FavoritesSignal, add_ad_hoc, apply_register_update}
use modbus_viewer.Favorites.View.{value_role, favorites_data}
use modbus_viewer.Favorites.Keeping.{IsEntry}
use modbus_viewer.Favorites.Invariant.{
  Reach, empty, next, from_address, Reach-All, apply_register_update-favorites_data,
}
use modbus_viewer.Favorites.History.{apply_updates, numeric_values, apply_updates-history}

abbrev no_entries : Favorites ℤ
no_entries = record { entries = []; address_convention = pdu }

-- One register, added by its address.
one_added : Reach integers (add_ad_hoc integers holding_register (pos 5) no_entries).0
one_added = next (empty pdu) (from_address holding_register (pos 5) no_entries)

Reach-All_example : All IsEntry (add_ad_hoc integers holding_register (pos 5) no_entries).0.entries
Reach-All_example = Reach-All integers one_added

apply_register_update-favorites_data_example :
    (g : Favorites ℤ) × (signals : List FavoritesSignal) × (v : Variant ℤ) × (apply_register_update
        integers 0
        (7 ∷ [])
        (add_ad_hoc integers holding_register (pos 5) no_entries).0
      ≡ some (g, signals))
    × (favorites_data integers g 0 value_role ≡ some v)
apply_register_update-favorites_data_example =
    apply_register_update-favorites_data integers
      (add_ad_hoc integers holding_register (pos 5) no_entries).0 0 (7 ∷ []) 0 value_role one_added

abbrev level : Entry ℤ
level = record {
  definition = record {
    label = [];
    description = [];
    register_type = holding_register;
    address = pos 5;
    format = record {
      format = DisplayFormat.unsigned_decimal;
      byte_order = ByteOrder.abcd;
      scale = pos 1;
      offset = pos 0;
      unit = [];
    };
    source = TagSource.ad_hoc;
  };
  raw_values = 0 ∷ [];
  history = [];
  bit_value = false;
  stale = true;
}

abbrev pinned : Favorites ℤ
pinned = record { entries = level ∷ []; address_convention = pdu }

level_word : is_bit_register_type level.definition.register_type ≡ false
unfolding is_bit_register_type
level_word = refl

one_register :
    All
      (λ (values : List ℕ). length values ≡ register_span level.definition)
      ((7 ∷ []) ∷ (8 ∷ []) ∷ [])
unfolding register_span is_bit_register_type register_span_for
one_register = (refl, (refl, tt))

apply_updates-history_example :
    (g : Favorites ℤ) × (after : Entry ℤ) × (xs : List ℤ) × (apply_updates integers 0
        ((7 ∷ []) ∷ (8 ∷ []) ∷ [])
        pinned
      ≡ some g)
    × (get_elem? g.entries 0 ≡ some after)
    × (numeric_values integers level.definition.format ((7 ∷ []) ∷ (8 ∷ []) ∷ []) ≡ some xs)
    × (after.history ≡ last history_capacity ([] ++ xs))
    × (after.definition ≡ level.definition)
apply_updates-history_example =
    apply_updates-history integers ((7 ∷ []) ∷ (8 ∷ []) ∷ []) pinned 0 level refl level_word
      (omega arith) one_register
