-- ===== src/Favorites/Entries.antt =====
-- core/model/RegisterDefinition.h and the state of app-lib/models/FavoritesModel.h. Addresses are
-- integers, since the list takes any `int`.
use modbus_viewer.Prelude.{ℕ, Bool, List, if◌then◌else◌}
use modbus_viewer.Prelude.Integers.{ℤ}
use modbus_viewer.Prelude.Texts.{Text}
use modbus_viewer.Model.{RegisterType, is_bit_register_type}
use modbus_viewer.Addresses.{AddressConvention}
use modbus_viewer.Format.Settings.{FormatSettings, register_span_for}

pub data TagSource : Type 0 where
  imported ad_hoc : TagSource

pub record RegisterDefinition (R : Type 0) : Type 0 where
  pub label : Text
  pub description : Text
  pub register_type : RegisterType
  pub address : ℤ
  pub format : FormatSettings R
  pub source : TagSource

unfoldable pub register_span : {R : Type 0} → RegisterDefinition R → ℕ
register_span d =
    if is_bit_register_type d.register_type then 1 else register_span_for d.format.format

pub record Entry (R : Type 0) : Type 0 where
  pub definition : RegisterDefinition R
  pub raw_values : List ℕ
  pub history : List R
  pub bit_value : Bool
  pub stale : Bool

pub record Favorites (R : Type 0) : Type 0 where
  pub entries : List (Entry R)
  pub address_convention : AddressConvention

abbrev pub history_capacity : ℕ
history_capacity = 20
