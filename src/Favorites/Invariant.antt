-- ===== src/Favorites/Invariant.antt =====
-- app-lib/models/FavoritesModel.cpp: the lists that the operations make from the empty one.
use modbus_viewer.Prelude.{
  ℕ, ◌≡◌, refl, subst, ◌∙◌, inl, inr, Bool, false, List, [], ◌∷◌, Option, some, ◌==◌, arith, length,
  get_elem?, set, All, All-set, Bool-cases, Option-cases,
}
use modbus_viewer.Prelude.Integers.{ℤ}
use modbus_viewer.Model.{RegisterType, is_bit_register_type}
use modbus_viewer.Addresses.{AddressConvention}
use modbus_viewer.Format.Settings.{FormatSettings, Numerics}
use modbus_viewer.Format.Reading.{numeric_value-total, format_value-total}
use modbus_viewer.Table.View.{Variant, invalid, on_off}
use modbus_viewer.Prelude.Texts.{Text}
use modbus_viewer.Favorites.View.{
  FavoritesRole, label_role, description_role, address_role, value_role, unit_role, stale_role,
  is_bit_role, bool_value_role, writable_role, history_role, other_role, entry_text, entry_data,
  favorites_data,
}
use modbus_viewer.Favorites.Entries.{RegisterDefinition, register_span, Entry, Favorites}
use modbus_viewer.Favorites.Operations.{
  FavoritesSignal, add_from_tag, remove_at, clear, set_format_at, set_address_convention,
  apply_bit_update, mark_stale, push_history, add_ad_hoc, take_values, apply_register_update,
  row_changed,
}
use modbus_viewer.Favorites.Keeping.{
  IsEntry, entry_at, register_span_word, new_entry-IsEntry, append_entry-All, add_from_tag-All,
  remove_at-All, clear-All, set_format_at-All, set_address_convention-All, apply_bit_update-All,
  mark_stale-All, length-push_history,
}

-- What the user and the poll engine do to the list, and `none` of an update is a read outside a list.
pub data Step {R : Type 0} (n : Numerics R) : Favorites R → Favorites R → Type 0 where
  from_tag : (d : Option (RegisterDefinition R)) (f : Favorites R) → Step n f (add_from_tag d f).0
  from_address :
      (type : RegisterType) (address : ℤ) (f : Favorites R)
      → Step n f (add_ad_hoc n type address f).0
  removal : (row : ℕ) (f : Favorites R) → Step n f (remove_at row f).0
  clearing : (f : Favorites R) → Step n f (clear f).0
  format_change :
      (row : ℕ) (settings : FormatSettings R) (f : Favorites R)
      → Step n f (set_format_at row settings f).0
  convention_change :
      (convention : AddressConvention) (f : Favorites R)
      → Step n f (set_address_convention convention f).0
  bit_update :
      (row : ℕ) (values : List Bool) (f : Favorites R) → Step n f (apply_bit_update row values f).0
  stale_mark : (row : ℕ) (f : Favorites R) → Step n f (mark_stale row f).0
  register_update :
      (row : ℕ) (values : List ℕ) (f g : Favorites R) (signals : List FavoritesSignal)
      → apply_register_update n row values f ≡ some (g, signals)
      → Step n f g

pub data Reach {R : Type 0} (n : Numerics R) : Favorites R → Type 0 where
  empty :
      (convention : AddressConvention)
      → Reach n (record { entries = []; address_convention = convention })
  next : {f g : Favorites R} → Reach n f → Step n f g → Reach n g

module _ {R : Type 0} (n : Numerics R) where
  -- Values of the number that the entry takes are accepted.
  take_values-IsEntry :
      (values : List ℕ) (e : Entry R)
      → length values ≡ register_span e.definition
      → IsEntry e
      → (taken : Entry R) × (take_values n values e ≡ some taken) × IsEntry taken
  unfolding take_values
  take_values-IsEntry values e l good =
      elim (Bool-cases (is_bit_register_type e.definition.register_type)) [
        | inl b ↦ rw b (
          record e { raw_values = values; stale = false },
          refl,
          record { sized = inl b; short = good.short },
        )
        | inr b ↦
            let wide = l ∙ register_span_word e.definition b in
            let (x, k) = numeric_value-total n e.definition.format values (omega arith) in
            rw (b, k)
              (
                record e { raw_values = values; stale = false; history = push_history x e.history },
                refl,
                record { sized = inr wide; short = length-push_history x e.history good.short },
              )
      ]

  apply_register_update-All :
      (row : ℕ) (values : List ℕ) (f : Favorites R)
      → All IsEntry f.entries
      → (g : Favorites R) × (signals : List FavoritesSignal) × (apply_register_update n row values f
          ≡ some (g, signals))
        × All IsEntry g.entries
  unfolding apply_register_update
  apply_register_update-All row values f h = elim (Option-cases (get_elem? f.entries row)) [
    | inl k ↦ rw (k, apply_register_update) (f, [], refl, h)
    | inr (e, k) ↦ elim (Bool-cases (length values == register_span e.definition)) [
      | inr b ↦ rw (k, apply_register_update, b) (f, [], refl, h)
      | inl b ↦
          let good = entry_at f row e h k in
          let (taken, t, fine) = take_values-IsEntry values e (ground arith) good in
          rw (k, apply_register_update, b, t)
            (
              record f { entries = set f.entries row taken },
              row_changed row ∷ [],
              refl,
              All-set IsEntry f.entries row taken h fine,
            )
    ]
  ]

  Step-All : {f g : Favorites R} → Step n f g → All IsEntry f.entries → All IsEntry g.entries
  unfolding add_ad_hoc
  Step-All (from_tag d f) h = add_from_tag-All d f h
  Step-All (from_address type address f) h = append_entry-All _ f (new_entry-IsEntry _) h
  Step-All (removal row f) h = remove_at-All row f h
  Step-All (clearing f) h = clear-All f h
  Step-All (format_change row settings f) h = set_format_at-All row settings f h
  Step-All (convention_change convention f) h = set_address_convention-All convention f h
  Step-All (bit_update row values f) h = apply_bit_update-All row values f h
  Step-All (stale_mark row f) h = mark_stale-All row f h
  Step-All (register_update row values f g signals e) h =
      let (g', s', e', all) = apply_register_update-All row values f h in
      let same : g' ≡ g = cc in subst (λ g. All IsEntry g.entries) same all

  -- In every list that the operations make from the empty one, each entry of a word type has exactly
  -- the registers of its format, and no history is longer than the capacity.
  pub Reach-All : {f : Favorites R} → Reach n f → All IsEntry f.entries
  Reach-All (empty convention) = tt
  Reach-All (next r s) = Step-All s (Reach-All r)

  entry_text-total : (e : Entry R) → IsEntry e → (shown : Text) × (entry_text n e ≡ some shown)
  unfolding entry_text
  entry_text-total e good = elim good.sized [
    | inl b ↦ rw b (on_off e.bit_value, refl)
    | inr l ↦ elim (Bool-cases (is_bit_register_type e.definition.register_type)) [
      | inl b ↦ rw b (on_off e.bit_value, refl)
      | inr b ↦ rw b (format_value-total n e.definition.format e.raw_values (omega arith))
    ]
  ]

  entry_data-total :
      (f : Favorites R) (role : FavoritesRole) (e : Entry R)
      → IsEntry e
      → (v : Variant R) × (entry_data n f role e ≡ some v)
  unfolding entry_data
  entry_data-total f label_role e good = (_, refl)
  entry_data-total f description_role e good = (_, refl)
  entry_data-total f address_role e good = (_, refl)
  entry_data-total f value_role e good = let (shown, k) = entry_text-total e good in rw k (_, refl)
  entry_data-total f unit_role e good = (_, refl)
  entry_data-total f stale_role e good = (_, refl)
  entry_data-total f is_bit_role e good = (_, refl)
  entry_data-total f bool_value_role e good = (_, refl)
  entry_data-total f writable_role e good = (_, refl)
  entry_data-total f history_role e good = (_, refl)
  entry_data-total f other_role e good = (_, refl)

  favorites_data-total :
      (f : Favorites R) (row : ℕ) (role : FavoritesRole)
      → All IsEntry f.entries
      → (v : Variant R) × (favorites_data n f row role ≡ some v)
  unfolding favorites_data
  favorites_data-total f row role h = elim (Option-cases (get_elem? f.entries row)) [
    | inl k ↦ rw (k, favorites_data) (invalid, refl)
    | inr (e, k) ↦ rw (k, favorites_data) (entry_data-total f role e (entry_at f row e h k))
  ]

  -- On every list that the operations make, a response for any row with any number of values is
  -- handled, and `data` afterwards answers for every row and role: neither reads outside a list.
  pub apply_register_update-favorites_data :
      (f : Favorites R) (updated : ℕ) (values : List ℕ) (row : ℕ) (role : FavoritesRole)
      → Reach n f
      → (g : Favorites R) × (signals : List FavoritesSignal) × (v : Variant R)
        × (apply_register_update n updated values f ≡ some (g, signals))
        × (favorites_data n g row role ≡ some v)
  apply_register_update-favorites_data f updated values row role r =
      let (g, signals, e, all) = apply_register_update-All updated values f (Reach-All r) in
      let (v, k) = favorites_data-total g row role all in (g, signals, v, e, k)
