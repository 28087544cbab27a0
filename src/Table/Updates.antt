-- ===== src/Table/Updates.antt =====
-- `updateRegisters`, `setRegisters` and `setBits` of app-lib/models/RegisterTableModel.cpp: the update in place
-- and the one by a reset.
use modbus_viewer.Prelude.{
  ℕ, ◌+◌, ◌≤◌, ◌<◌, ◌≡◌, refl, sym, ap, subst, ◌∙◌, inl, inr, Bool, true, false, ◌&&◌, List, [],
  ◌∷◌, ◌++◌, Option, none, some, ◌==◌, if◌then◌else◌, arith, length, get_elem?_below, Bool-cases,
}
use modbus_viewer.Model.{is_bit_register_type}
use modbus_viewer.Format.Settings.{Numerics, default_format_settings}
use modbus_viewer.Table.Rows.{
  LogicalRow, Table, bit_rows, word_rows, built_rows, rebuild_logical_rows,
}
use modbus_viewer.Table.Operations.{
  TableSignal, model_reset, data_changed, bool_eq, widen, diff, changed_rows, stale_signal, reset,
  update_registers, set_bits, changed_bits,
}
use modbus_viewer.Table.Rebuilding.{
  IsBuilt, rows_of, rebuild_step, rebuild_logical_rows-IsBuilt, IsBuilt-rows_of,
  length-raw_index_to_row_index,
}

-- A range of indices inside a list.
abbrev pub Inside : ℕ → Option (ℕ × ℕ) → Type 0
Inside n none = Unit
Inside n (some (first, last)) = (first < n) × (last < n)

module _ {ℓ} {A : Type ℓ} (eq : A → A → Bool) (sound : (a b : A) → eq a b ≡ true → a ≡ b) where
  -- Between lists of one length, the comparison ends with the new one.
  pub diff-merged :
      (i : ℕ) (as' bs : List A) (range : Option (ℕ × ℕ))
      → length as' ≡ length bs
      → (diff eq i as' bs range).0 ≡ bs
  unfolding diff
  diff-merged i [] [] range h = refl
  diff-merged i [] (b ∷ bs) range h = absurd (omega arith)
  diff-merged i (a ∷ as') [] range h = absurd (omega arith)
  diff-merged i (a ∷ as') (b ∷ bs) range h = elim (Bool-cases (eq a b)) [
    | inl e ↦ rw e (rw (sound a b e) (ap (◌∷◌ b) (diff-merged (i + 1) as' bs range (omega arith))))
    | inr e ↦ rw e (ap (◌∷◌ b) (diff-merged (i + 1) as' bs (widen i range) (omega arith)))
  ]

bool_eq_sound : (a b : Bool) → bool_eq a b ≡ true → a ≡ b
bool_eq_sound true b h = sym h
bool_eq_sound false true h = cc
bool_eq_sound false false h = refl

widen-Inside :
    (n i : ℕ) (range : Option (ℕ × ℕ)) → i < n → Inside n range → Inside n (widen i range)
unfolding widen
widen-Inside n i none h k = (h, h)
widen-Inside n i (some (first, last)) h k = (k.0, h)

pub diff-Inside {ℓ} :
    {A : Type ℓ} (eq : A → A → Bool) (n i : ℕ) (as' bs : List A) (range : Option (ℕ × ℕ))
    → i + length as' ≤ n
    → Inside n range
    → Inside n ((diff eq i as' bs range).1)
unfolding diff
diff-Inside eq n i [] bs range h k = k
diff-Inside eq n i (a ∷ as') [] range h k = k
diff-Inside eq n i (a ∷ as') (b ∷ bs) range h k = elim (Bool-cases (eq a b)) [
  | inl e ↦ rw e (diff-Inside eq n (i + 1) as' bs range (omega arith) k)
  | inr e ↦ rw e (
      diff-Inside eq n (i + 1) as' bs (widen i range) (omega arith)
        (widen-Inside n i range (omega arith) k))
]

changed_rows-total :
    (row_of : List ℕ) (range : Option (ℕ × ℕ))
    → Inside (length row_of) range
    → (signals : List TableSignal) × (changed_rows row_of range ≡ some signals)
unfolding changed_rows
changed_rows-total row_of none h = ([], refl)
changed_rows-total row_of (some (first, last)) h =
    let (a, e) = get_elem?_below row_of first h.0 in
    let (b, k) = get_elem?_below row_of last h.1 in rw (e, k) (data_changed a b ∷ [], refl)

module _ {R : Type 0} (n : Numerics R) where
  -- In place: with the start and the number of values the same, the rows stay.
  rows_stay :
      (t : Table R) (start_address : ℕ) (new_raw : List ℕ)
      → is_bit_register_type t.register_type ≡ false
      → IsBuilt n t
      → t.start_address ≡ start_address
      → length t.raw_values ≡ length new_raw
      → rebuild_logical_rows n
          (record t { stale = false; start_address = start_address; raw_values = new_raw })
        ≡ some (record t { stale = false; raw_values = new_raw })
  unfolding built_rows rows_of
  rows_stay t start_address new_raw w h e l =
      let (rows, k, same) = IsBuilt-rows_of n t h in
      let target = record t { stale = false; raw_values = new_raw } in
      let kept : word_rows n (length new_raw) t.formats t.start_address (length new_raw)
          ≡ some rows =
        subst (λ m. word_rows n m t.formats t.start_address m ≡ some rows) l (rw w at k) in
      let built : built_rows n target ≡ some rows = rw w kept in
      let done : rebuild_logical_rows n target ≡ some (rows_of n target rows) =
        rebuild_step n target rows built in
      let freshen : Table R → Table R = λ u. record u { stale = false; raw_values = new_raw } in
      let fields : rows_of n target rows ≡ target = ap freshen same in
      subst (λ a. rebuild_logical_rows n (record target { start_address = a }) ≡ some target) e
        (done ∙ ap some fields)

  -- `update_registers` succeeds on a table of registers whose rows are built, and whether it updates
  -- the values in place or resets the rows, the state is the one that a rebuild of the rows from the
  -- new values gives.
  pub update_registers-rebuild_logical_rows :
      (t : Table R) (start_address : ℕ) (new_raw : List ℕ)
      → is_bit_register_type t.register_type ≡ false
      → IsBuilt n t
      → (updated : Table R) × (signals : List TableSignal) × (update_registers n start_address
            new_raw t
          ≡ some (updated, signals))
        × (rebuild_logical_rows n
              (record t { stale = false; start_address = start_address; raw_values = new_raw })
            ≡ some updated)
  unfolding update_registers reset
  update_registers-rebuild_logical_rows t start_address new_raw w h =
      elim (Bool-cases
        (t.start_address == start_address && (length t.raw_values == length new_raw))) [
          | inl e ↦
              let same : t.start_address ≡ start_address = ground arith in
              let l : length t.raw_values ≡ length new_raw = ground arith in
              let merged = diff-merged ◌==◌ (λ a b q. ground arith) 0 t.raw_values new_raw none l in
              let measured = length-raw_index_to_row_index n t w h in
              let inside : Inside (length t.raw_index_to_row_index)
                  ((diff ◌==◌ 0 t.raw_values new_raw none).1) =
                diff-Inside ◌==◌ (length t.raw_index_to_row_index) 0 t.raw_values new_raw none
                  (omega arith) tt in
              let (signals, k) =
                changed_rows-total t.raw_index_to_row_index
                  ((diff ◌==◌ 0 t.raw_values new_raw none).1) inside in
              (
                record t { stale = false; raw_values = new_raw },
                stale_signal t ++ signals,
                rw (e, k, merged) refl,
                rows_stay t start_address new_raw w h same l,
              )
          | inr e ↦
              let (built, k, again) =
                rebuild_logical_rows-IsBuilt n (record t {
                  stale = false;
                  start_address = start_address;
                  raw_values = new_raw;
                }) in
              (built, stale_signal t ++ (model_reset ∷ []), rw (e, k) refl, k)
        ]

  bit_rows_lem :
      (address : ℕ) (before after : List Bool)
      → length before ≡ length after
      → bit_rows n address before ≡ bit_rows n address after
  unfolding bit_rows
  bit_rows_lem address [] [] h = refl
  bit_rows_lem address [] (b ∷ after) h = absurd (omega arith)
  bit_rows_lem address (a ∷ before) [] h = absurd (omega arith)
  bit_rows_lem address (a ∷ before) (b ∷ after) h =
      ap (◌∷◌ (record { address = address; span = 1; settings = default_format_settings n }))
        (bit_rows_lem (address + 1) before after (omega arith))

  built_rows_of_bits :
      (t : Table R) (bits : List Bool) (rows : List (LogicalRow R))
      → length t.bit_values ≡ length bits
      → built_rows n t ≡ some rows
      → built_rows n (record t { stale = false; bit_values = bits }) ≡ some rows
  unfolding built_rows
  built_rows_of_bits t bits rows l e =
      let same = bit_rows_lem t.start_address t.bit_values bits l in
      subst
        (λ r.
          (if is_bit_register_type t.register_type
            then some r
            else word_rows n (length t.raw_values) t.formats t.start_address (length t.raw_values))
          ≡ some rows)
        same e

  bits_stay :
      (t : Table R) (start_address : ℕ) (bits : List Bool)
      → IsBuilt n t
      → t.start_address ≡ start_address
      → length t.bit_values ≡ length bits
      → rebuild_logical_rows n
          (record t { stale = false; start_address = start_address; bit_values = bits })
        ≡ some (record t { stale = false; bit_values = bits })
  unfolding rows_of
  bits_stay t start_address bits h e l =
      let (rows, k, same) = IsBuilt-rows_of n t h in
      let target = record t { stale = false; bit_values = bits } in
      let freshen : Table R → Table R = λ u. record u { stale = false; bit_values = bits } in
      let done = rebuild_step n target rows (built_rows_of_bits t bits rows l k) in
      let fields : rows_of n target rows ≡ target = ap freshen same in
      subst (λ a. rebuild_logical_rows n (record target { start_address = a }) ≡ some target) e
        (done ∙ ap some fields)

  -- `set_bits` succeeds on a table whose rows are built, and whether it updates the bits in place or
  -- resets the rows, the state is the one that a rebuild of the rows from the new bits gives.
  pub set_bits-rebuild_logical_rows :
      (t : Table R) (start_address : ℕ) (values : List Bool)
      → IsBuilt n t
      → (updated : Table R) × (signals : List TableSignal) × (set_bits n start_address values t
          ≡ some (updated, signals))
        × (rebuild_logical_rows n
              (record t { stale = false; start_address = start_address; bit_values = values })
            ≡ some updated)
  unfolding set_bits reset
  set_bits-rebuild_logical_rows t start_address values h =
      elim (Bool-cases
        (t.start_address == start_address && (length t.bit_values == length values))) [
          | inl e ↦
              let same : t.start_address ≡ start_address = ground arith in
              let l : length t.bit_values ≡ length values = ground arith in
              let merged = diff-merged bool_eq bool_eq_sound 0 t.bit_values values none l in
              (
                record t { stale = false; bit_values = values },
                stale_signal t ++ changed_bits (diff bool_eq 0 t.bit_values values none).1,
                rw (e, merged) refl,
                bits_stay t start_address values h same l,
              )
          | inr e ↦
              let (built, k, again) =
                rebuild_logical_rows-IsBuilt n (record t {
                  stale = false;
                  start_address = start_address;
                  bit_values = values;
                }) in
              (built, stale_signal t ++ (model_reset ∷ []), rw (e, k) refl, k)
        ]
