-- ===== src/Favorites/Keeping.antt =====
-- app-lib/models/FavoritesModel.cpp: what each operation does to the entries.
use modbus_viewer.Prelude.{
  ℕ, zero, suc, ◌≤◌, ◌≡◌, refl, ◌∙◌, ◌⊎◌, inl, inr, Bool, true, false, List, [], ◌∷◌, ◌++◌, Option,
  none, some, ltb, arith, length, get_elem?, All, All-append, All-set, All-get_elem?, length-append,
  length-replicate, length-drop, Bool-cases, Option-cases,
}
use modbus_viewer.Model.{is_bit_register_type}
use modbus_viewer.Addresses.{AddressConvention, convention_eq}
use modbus_viewer.Format.Settings.{FormatSettings, register_span_for}
use modbus_viewer.Prelude.Texts.{is_empty}
use modbus_viewer.Favorites.Entries.{
  RegisterDefinition, register_span, Entry, Favorites, history_capacity,
}
use modbus_viewer.Favorites.Operations.{
  new_entry, append_entry, add_from_tag, remove_row, remove_at, clear, reformatted, set_format_at,
  set_address_convention, apply_bit_update, mark_stale, push_history,
}

-- An entry of a word type has the registers of its format, and a history is within the capacity.
pub record IsEntry {R : Type 0} (e : Entry R) : Type 0 where
  pub sized :
      (is_bit_register_type e.definition.register_type ≡ true)
      ⊎ (length e.raw_values ≡ register_span_for e.definition.format.format)
  pub short : length e.history ≤ history_capacity

pub length-push_history {ℓ} :
    {A : Type ℓ} (value : A) (history : List A)
    → length history ≤ history_capacity
    → length (push_history value history) ≤ history_capacity
unfolding push_history
length-push_history value history h =
    let longer = history ++ (value ∷ []) in
    let all = length-append history (value ∷ []) in
    elim (Bool-cases (ltb history_capacity (length longer))) [
      | inl e ↦ rw e (omega (arith, length-drop 1 longer, all))
      | inr e ↦ rw e (ground arith)
    ]

module _ {R : Type 0} where
  pub register_span_word :
      (d : RegisterDefinition R)
      → is_bit_register_type d.register_type ≡ false
      → register_span d ≡ register_span_for d.format.format
  unfolding register_span
  register_span_word d w = rw w refl

  pub new_entry-IsEntry : (d : RegisterDefinition R) → IsEntry (new_entry d)
  unfolding new_entry
  new_entry-IsEntry d = elim (Bool-cases (is_bit_register_type d.register_type)) [
    | inl e ↦ record { sized = inl e; short = omega arith }
    | inr e ↦ record {
      sized = inr (rw e (length-replicate (register_span d) 0 ∙ register_span_word d e));
      short = omega arith;
    }
  ]

  reformatted-IsEntry :
      (settings : FormatSettings R) (e : Entry R) → IsEntry (reformatted settings e)
  unfolding reformatted
  reformatted-IsEntry settings e =
      let d = record e.definition { format = settings } in
      elim (Bool-cases (is_bit_register_type e.definition.register_type)) [
        | inl b ↦ record { sized = inl b; short = omega arith }
        | inr b ↦ record {
          sized = inr (length-replicate (register_span d) 0 ∙ register_span_word d b);
          short = omega arith;
        }
      ]

  All-remove_row :
      (row : ℕ) (es : List (Entry R)) → All IsEntry es → All IsEntry (remove_row row es)
  unfolding remove_row
  All-remove_row row [] h = h
  All-remove_row zero (e ∷ es) h = h.1
  All-remove_row (suc row) (e ∷ es) h = (h.0, All-remove_row row es h.1)

  pub append_entry-All :
      (e : Entry R) (f : Favorites R)
      → IsEntry e
      → All IsEntry f.entries
      → All IsEntry (append_entry e f).0.entries
  unfolding append_entry
  append_entry-All e f h all = All-append IsEntry f.entries (e ∷ []) all (h, tt)

  pub add_from_tag-All :
      (d : Option (RegisterDefinition R)) (f : Favorites R)
      → All IsEntry f.entries
      → All IsEntry (add_from_tag d f).0.entries
  unfolding add_from_tag
  add_from_tag-All none f h = h
  add_from_tag-All (some d) f h = append_entry-All (new_entry d) f (new_entry-IsEntry d) h

  pub remove_at-All :
      (row : ℕ) (f : Favorites R) → All IsEntry f.entries → All IsEntry (remove_at row f).0.entries
  unfolding remove_at
  remove_at-All row f h = elim (Bool-cases (ltb row (length f.entries))) [
    | inl e ↦ rw e (All-remove_row row f.entries h)
    | inr e ↦ rw e h
  ]

  pub clear-All : (f : Favorites R) → All IsEntry f.entries → All IsEntry (clear f).0.entries
  unfolding clear
  clear-All f h = elim (Bool-cases (is_empty f.entries)) [ inl e ↦ rw e h | inr e ↦ rw e tt ]

  -- An entry keeps its invariant when what it is made of stays.
  pub entry_at :
      (f : Favorites R) (row : ℕ) (e : Entry R)
      → All IsEntry f.entries
      → get_elem? f.entries row ≡ some e
      → IsEntry e
  entry_at f row e h k = All-get_elem? IsEntry f.entries row e h k

  pub set_format_at-All :
      (row : ℕ) (settings : FormatSettings R) (f : Favorites R)
      → All IsEntry f.entries
      → All IsEntry (set_format_at row settings f).0.entries
  unfolding set_format_at
  set_format_at-All row settings f h = elim (Option-cases (get_elem? f.entries row)) [
    | inl k ↦ rw (k, All) h
    | inr (e, k) ↦
        rw (k, All)
          (All-set IsEntry f.entries row (reformatted settings e) h
            (reformatted-IsEntry settings e))
  ]

  pub set_address_convention-All :
      (convention : AddressConvention) (f : Favorites R)
      → All IsEntry f.entries
      → All IsEntry (set_address_convention convention f).0.entries
  unfolding set_address_convention
  set_address_convention-All convention f h =
      elim (Bool-cases (convention_eq f.address_convention convention)) [
        | inl e ↦ rw e h
        | inr e ↦ rw e h
      ]

  pub apply_bit_update-All :
      (row : ℕ) (values : List Bool) (f : Favorites R)
      → All IsEntry f.entries
      → All IsEntry (apply_bit_update row values f).0.entries
  unfolding apply_bit_update
  apply_bit_update-All row [] f h = h
  apply_bit_update-All row (value ∷ values) f h = elim (Option-cases (get_elem? f.entries row)) [
    | inl k ↦ rw (k, All) h
    | inr (e, k) ↦
        let good = entry_at f row e h k in
        rw (k, All)
          (All-set IsEntry f.entries row (record e { bit_value = value; stale = false }) h
            (record { sized = good.sized; short = good.short }))
  ]

  pub mark_stale-All :
      (row : ℕ) (f : Favorites R) → All IsEntry f.entries → All IsEntry (mark_stale row f).0.entries
  unfolding mark_stale
  mark_stale-All row f h = elim (Option-cases (get_elem? f.entries row)) [
    | inl k ↦ rw (k, All) h
    | inr (e, k) ↦
        let good = entry_at f row e h k in
        elim (Bool-cases e.stale) [
          | inl b ↦ rw (k, b, All) h
          | inr b ↦
              rw (k, b, All)
                (All-set IsEntry f.entries row (record e { stale = true }) h
                  (record { sized = good.sized; short = good.short }))
        ]
  ]
