-- ===== src/Table/Keeping.antt =====
-- The rows in app-lib/models/RegisterTableModel.cpp after each of its operations.
use modbus_viewer.Prelude.{
  ℕ, ◌≡◌, sym, ap, subst, ◌∙◌, inl, inr, Bool, true, false, ◌&&◌, List, [], ◌∷◌, ◌++◌, Option, none,
  some, ◌>>=◌, >>=-eq-some, ◌==◌, if◌then◌else◌, length, get_elem?, Bool-cases, Option-cases,
}
use modbus_viewer.Model.{RegisterType, is_bit_register_type, type_eq}
use modbus_viewer.Addresses.{AddressConvention, convention_eq}
use modbus_viewer.Format.Settings.{FormatSettings, Numerics}
use modbus_viewer.Table.Rows.{Table, built_rows, rebuild_logical_rows}
use modbus_viewer.Table.Operations.{
  TableSignal, diff, changed_rows, stale_signal, reset, stale_changed, register_type_changed,
  update_registers, set_bits, insert_format, set_format_at, mark_stale, set_address_convention,
  set_register_type,
}
use modbus_viewer.Table.Rebuilding.{
  IsBuilt, rows_of, rebuild_step, IsBuilt-rows_of, IsBuilt-rebuild_logical_rows,
}
use modbus_viewer.Table.Updates.{
  update_registers-rebuild_logical_rows, set_bits-rebuild_logical_rows,
}

module _ {R : Type 0} (n : Numerics R) where
  reset-IsBuilt :
      (t u : Table R) (before after : List TableSignal)
      → reset n t before ≡ some (u, after)
      → IsBuilt n u
  unfolding reset
  reset-IsBuilt t u before after e =
      let (built, k, l) = >>=-eq-some (rebuild_logical_rows n t) _ e in
      let same : built ≡ u = cc in subst (IsBuilt n) same (IsBuilt-rebuild_logical_rows n t built k)

  -- On bits, the rows do not depend on the registers.
  bit_registers-IsBuilt :
      (t : Table R) (raw : List ℕ)
      → is_bit_register_type t.register_type ≡ true
      → IsBuilt n t
      → IsBuilt n (record t { stale = false; raw_values = raw })
  unfolding IsBuilt built_rows rows_of
  bit_registers-IsBuilt t raw w h =
      let (rows, k, same) = IsBuilt-rows_of n t h in
      let target : Table R = record t { stale = false; raw_values = raw } in
      let kept = rw w at k in
      let built : built_rows n target ≡ some rows = rw w kept in
      let freshen : Table R → Table R = λ u. record u { stale = false; raw_values = raw } in
      let fields : rows_of n target rows ≡ target = ap freshen same in
      rebuild_step n target rows built ∙ ap some fields

  bit_update-IsBuilt :
      (start_address : ℕ) (raw : List ℕ) (t u : Table R) (signals : List TableSignal)
      → is_bit_register_type t.register_type ≡ true
      → update_registers n start_address raw t ≡ some (u, signals)
      → IsBuilt n t
      → IsBuilt n u
  unfolding update_registers
  bit_update-IsBuilt start_address raw t u signals w e h =
      let done = diff ◌==◌ 0 t.raw_values raw none in
      let fresh : Table R = record t { stale = false; raw_values = done.0 } in
      let renewed : Table R = record t {
        stale = false;
        start_address = start_address;
        raw_values = raw;
      } in
      let in_place : Option (Table R × List TableSignal) =
        changed_rows t.raw_index_to_row_index done.1 >>= λ changed.
        some (fresh, stale_signal t ++ changed) in
      let branch : Bool → Type 0 =
        λ b. (if b then in_place else reset n renewed (stale_signal t)) ≡ some (u, signals) in
      elim (Bool-cases (t.start_address == start_address && (length t.raw_values == length raw))) [
        | inl b ↦
            let (changed, k, l) =
              >>=-eq-some (changed_rows t.raw_index_to_row_index done.1) _ (subst branch b e) in
            let same : fresh ≡ u = cc in subst (IsBuilt n) same (bit_registers-IsBuilt t done.0 w h)
        | inr b ↦ reset-IsBuilt renewed u (stale_signal t) signals (subst branch b e)
      ]

  pub update_registers-IsBuilt :
      (start_address : ℕ) (raw : List ℕ) (t u : Table R) (signals : List TableSignal)
      → update_registers n start_address raw t ≡ some (u, signals)
      → IsBuilt n t
      → IsBuilt n u
  update_registers-IsBuilt start_address raw t u signals e h =
      elim (Bool-cases (is_bit_register_type t.register_type)) [
        | inr w ↦
            let (updated, told, k, rebuilt) =
              update_registers-rebuild_logical_rows n t start_address raw w h in
            let same : updated ≡ u = cc in
            subst (IsBuilt n) same (IsBuilt-rebuild_logical_rows n _ updated rebuilt)
        | inl w ↦ bit_update-IsBuilt start_address raw t u signals w e h
      ]

  pub set_bits-IsBuilt :
      (start_address : ℕ) (values : List Bool) (t u : Table R) (signals : List TableSignal)
      → set_bits n start_address values t ≡ some (u, signals)
      → IsBuilt n t
      → IsBuilt n u
  set_bits-IsBuilt start_address values t u signals e h =
      let (updated, told, k, rebuilt) = set_bits-rebuild_logical_rows n t start_address values h in
      let same : updated ≡ u = cc in
      subst (IsBuilt n) same (IsBuilt-rebuild_logical_rows n _ updated rebuilt)

  some-IsBuilt :
      (t u : Table R) (before after : List TableSignal)
      → ◌≡◌ {A = Option (Table R × List TableSignal)} (some (t, before)) (some (u, after))
      → IsBuilt n t
      → IsBuilt n u
  some-IsBuilt t u before after e h = let same : t ≡ u = cc in subst (IsBuilt n) same h

  pub set_format_at-IsBuilt :
      (row : ℕ) (settings : FormatSettings R) (t u : Table R) (signals : List TableSignal)
      → set_format_at n row settings t ≡ some (u, signals)
      → IsBuilt n t
      → IsBuilt n u
  unfolding set_format_at
  set_format_at-IsBuilt row settings t u signals e h =
      elim (Option-cases (get_elem? t.logical_rows row)) [
        | inl k ↦
            let kept : ◌≡◌ {A = Option (Table R × List TableSignal)} (some (t, []))
                (some (u, signals)) =
              rw (k, set_format_at) at e in
            some-IsBuilt t u [] signals kept h
        | inr (r, k) ↦
            let renewed : Table R = record t {
              formats = insert_format n r.address settings t.formats;
            } in
            let branch : Bool → Type 0 =
              λ b. (if b then some (t, []) else reset n renewed []) ≡ some (u, signals) in
            let here : branch (is_bit_register_type t.register_type) = rw (k, set_format_at) at e in
            elim (Bool-cases (is_bit_register_type t.register_type)) [
              | inl b ↦ some-IsBuilt t u [] signals (subst branch b here) h
              | inr b ↦ reset-IsBuilt renewed u [] signals (subst branch b here)
            ]
      ]

  pub set_register_type-IsBuilt :
      (type : RegisterType) (t u : Table R) (signals : List TableSignal)
      → set_register_type n type t ≡ some (u, signals)
      → IsBuilt n t
      → IsBuilt n u
  unfolding set_register_type
  set_register_type-IsBuilt type t u signals e h =
      let renewed : Table R = record t {
        register_type = type;
        raw_values = [];
        bit_values = [];
        formats = [];
      } in
      let other : Option (Table R × List TableSignal) =
        reset n renewed [] >>= λ done. some (done.0, done.1 ++ (register_type_changed ∷ [])) in
      let branch : Bool → Type 0 = λ b. (if b then some (t, []) else other) ≡ some (u, signals) in
      elim (Bool-cases (type_eq t.register_type type)) [
        | inl b ↦ some-IsBuilt t u [] signals (subst branch b e) h
        | inr b ↦
            let ((v, told), k, l) = >>=-eq-some (reset n renewed []) _ (subst branch b e) in
            let same : v ≡ u = cc in subst (IsBuilt n) same (reset-IsBuilt renewed v [] told k)
      ]

  convention-IsBuilt :
      (convention : AddressConvention) (t : Table R)
      → IsBuilt n t
      → IsBuilt n (record t { address_convention = convention })
  unfolding IsBuilt built_rows rows_of
  convention-IsBuilt convention t h =
      let (rows, k, same) = IsBuilt-rows_of n t h in
      let target : Table R = record t { address_convention = convention } in
      let change : Table R → Table R = λ u. record u { address_convention = convention } in
      let fields : rows_of n target rows ≡ target = ap change same in
      rebuild_step n target rows k ∙ ap some fields

  pub set_address_convention-IsBuilt :
      (convention : AddressConvention) (t : Table R)
      → IsBuilt n t
      → IsBuilt n (set_address_convention n convention t).0
  unfolding set_address_convention
  set_address_convention-IsBuilt convention t h =
      elim (Bool-cases (convention_eq t.address_convention convention)) [
        | inl b ↦ rw b h
        | inr b ↦ rw b (convention-IsBuilt convention t h)
      ]

  stale-IsBuilt : (t : Table R) → IsBuilt n t → IsBuilt n (record t { stale = true })
  unfolding IsBuilt built_rows rows_of
  stale-IsBuilt t h =
      let (rows, k, same) = IsBuilt-rows_of n t h in
      let target : Table R = record t { stale = true } in
      let change : Table R → Table R = λ u. record u { stale = true } in
      let fields : rows_of n target rows ≡ target = ap change same in
      rebuild_step n target rows k ∙ ap some fields

  pub mark_stale-IsBuilt : (t : Table R) → IsBuilt n t → IsBuilt n (mark_stale n t).0
  unfolding mark_stale
  mark_stale-IsBuilt t h =
      let branch : Bool → Type 0 = λ b.
        (let marked : Table R × List TableSignal =
            if b then (t, []) else (record t { stale = true }, stale_changed ∷ []) in
          IsBuilt n marked.0) in
      elim (Bool-cases t.stale) [
        | inl b ↦ subst branch (sym b) h
        | inr b ↦ subst branch (sym b) (stale-IsBuilt t h)
      ]
