-- ===== src/Favorites/History.antt =====
-- The history of an entry in app-lib/models/FavoritesModel.cpp over a run of responses.
use modbus_viewer.Prelude.{
  ℕ, zero, suc, ◌-◌, ◌≤◌, ◌<◌, ◌≡◌, refl, sym, ap, ◌∙◌, inl, inr, true, false, List, [], ◌∷◌, ◌++◌,
  append_assoc, append-nil, Option, some, ◌>>=◌, ◌==◌, ltb, arith, length, get_elem?, set, drop,
  All, length-append, get_elem?-set_self, Bool-cases,
}
use modbus_viewer.Prelude.Windows.{last, last-append, last_short}
use modbus_viewer.Model.{is_bit_register_type}
use modbus_viewer.Format.Settings.{FormatSettings, Numerics}
use modbus_viewer.Format.Values.{numeric_value}
use modbus_viewer.Format.Reading.{numeric_value-total}
use modbus_viewer.Favorites.Entries.{register_span, Entry, Favorites, history_capacity}
use modbus_viewer.Favorites.Operations.{
  row_changed, push_history, take_values, apply_register_update,
}
use modbus_viewer.Favorites.Keeping.{register_span_word, length-push_history}

-- The history as what it stands for: the last values of all.
push_history-last {ℓ} :
    {A : Type ℓ} (value : A) (history : List A)
    → length history ≤ history_capacity
    → push_history value history ≡ last history_capacity (history ++ (value ∷ []))
unfolding push_history
push_history-last value history h =
    let longer = history ++ (value ∷ []) in
    let all = length-append history (value ∷ []) in
    elim (Bool-cases (ltb history_capacity (length longer))) [
      | inl e ↦
          let one : 1 ≡ length longer - history_capacity = ground (arith, all) in
          rw e (ap (λ k. drop k longer) one)
      | inr e ↦ rw e (sym (last_short history_capacity longer (ground arith)))
    ]

module _ {R : Type 0} (n : Numerics R) where
  -- A run of responses for one row.
  abbrev pub apply_updates : ℕ → List (List ℕ) → Favorites R → Option (Favorites R)
  apply_updates row [] f = some f
  apply_updates row (values ∷ updates) f =
      apply_register_update n row values f >>= λ done. apply_updates row updates done.0

  -- The numbers that the responses stand for.
  abbrev pub numeric_values : FormatSettings R → List (List ℕ) → Option (List R)
  numeric_values settings [] = some []
  numeric_values settings (values ∷ updates) = numeric_value n settings values >>= λ x.
      numeric_values settings updates >>= λ xs. some (x ∷ xs)

  abbrev updated : List ℕ → R → Entry R → Entry R
  updated values x e = record e {
    raw_values = values;
    stale = false;
    history = push_history x e.history;
  }

  update_row :
      (f : Favorites R) (row : ℕ) (e : Entry R) (values : List ℕ) (x : R)
      → get_elem? f.entries row ≡ some e
      → is_bit_register_type e.definition.register_type ≡ false
      → length values ≡ register_span e.definition
      → numeric_value n e.definition.format values ≡ some x
      → apply_register_update n row values f
        ≡ some (record f { entries = set f.entries row (updated values x e) }, row_changed row ∷ [])
  unfolding apply_register_update take_values
  update_row f row e values x k w l q =
      let same : (length values == register_span e.definition) ≡ true = ground arith in
      rw (k, apply_register_update, same, w, q) refl

  row_inside :
      (es : List (Entry R)) (row : ℕ) (e : Entry R) → get_elem? es row ≡ some e → row < length es
  row_inside [] row e k = cc
  row_inside (x ∷ es) zero e k = omega arith
  row_inside (x ∷ es) (suc row) e k = let l = row_inside es row e k in omega arith

  -- A row of a word type that is sent a run of responses, each with as many values as it has
  -- registers, handles them all: its history is then the last twenty of the numbers that it had and
  -- of those of the responses in order, and its definition is the same.
  pub apply_updates-history :
      (updates : List (List ℕ)) (f : Favorites R) (row : ℕ) (e : Entry R)
      → get_elem? f.entries row ≡ some e
      → is_bit_register_type e.definition.register_type ≡ false
      → length e.history ≤ history_capacity
      → All (λ values. length values ≡ register_span e.definition) updates
      → (g : Favorites R) × (after : Entry R) × (xs : List R) × (apply_updates row updates f
          ≡ some g)
        × (get_elem? g.entries row ≡ some after)
        × (numeric_values e.definition.format updates ≡ some xs)
        × (after.history ≡ last history_capacity (e.history ++ xs))
        × (after.definition ≡ e.definition)
  apply_updates-history [] f row e k w h all = (
    f,
    e,
    [],
    refl,
    k,
    refl,
    sym (rw (append-nil e.history) (last_short history_capacity e.history h)),
    refl,
  )
  apply_updates-history (values ∷ updates) f row e k w h all =
      let wide = register_span_word e.definition w in
      let (x, q) = numeric_value-total n e.definition.format values (omega (arith, all.0)) in
      let step = update_row f row e values x k w all.0 q in
      let next = updated values x e in
      let there = get_elem?-set_self f.entries row next (row_inside f.entries row e k) in
      let (g, after, xs, run, found, numbers, window, same) =
        apply_updates-history updates (record f { entries = set f.entries row next }) row next there
          w (length-push_history x e.history h) all.1 in
      let joined : last history_capacity (push_history x e.history ++ xs)
          ≡ last history_capacity (e.history ++ (x ∷ xs)) =
        ap (λ l. last history_capacity (l ++ xs)) (push_history-last x e.history h)
        ∙ last-append history_capacity (e.history ++ (x ∷ [])) xs
        ∙ ap (last history_capacity) (append_assoc e.history (x ∷ []) xs) in
      (g, after, x ∷ xs, rw step run, found, rw (q, numbers) refl, window ∙ joined, same)
