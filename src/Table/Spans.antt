-- ===== src/Table/Spans.antt =====
-- The loop of `rebuildLogicalRows` in app-lib/models/RegisterTableModel.cpp: the rows that it lays out.
use modbus_viewer.Prelude.{
  ℕ, zero, suc, ◌+◌, ◌-◌, ◌≤◌, ◌<◌, ◌≡◌, refl, ap, subst, ◌∙◌, inl, inr, Bool, List, [], ◌∷◌, ◌++◌,
  some, ltb, leb, arith, length, get_elem?, replicate, length-append, length-replicate,
  get_elem?-append_left, get_elem?-append_right, Bool-cases,
}
use modbus_viewer.Format.Settings.{
  DisplayFormat, signed_decimal, unsigned_decimal, hex, binary, float32, int32_signed,
  int32_unsigned, FormatSettings, Numerics, register_span_for, default_format_settings,
}
use modbus_viewer.Table.Rows.{LogicalRow, format_at, bit_rows, row_at, word_rows, row_indices}

-- Rows that follow one another without a gap from an address to an end, each as wide as its format
-- takes.
abbrev pub Tiles : {R : Type 0} → ℕ → List (LogicalRow R) → ℕ → Type 0
Tiles a [] end = a ≡ end
Tiles a (row ∷ rows) end =
    (row.address ≡ a)
    × (1 ≤ row.span)
    × (register_span_for row.settings.format ≡ row.span)
    × Tiles (a + row.span) rows end

span_positive : (f : DisplayFormat) → 1 ≤ register_span_for f
unfolding register_span_for
span_positive signed_decimal = omega arith
span_positive unsigned_decimal = omega arith
span_positive hex = omega arith
span_positive binary = omega arith
span_positive float32 = omega arith
span_positive int32_signed = omega arith
span_positive int32_unsigned = omega arith

module _ {R : Type 0} (n : Numerics R) where
  row_at-fits :
      (formats : List (ℕ × FormatSettings R)) (address left : ℕ)
      → 1 ≤ left
      → ((row_at n formats address left).address ≡ address)
        × (1 ≤ (row_at n formats address left).span)
        × (register_span_for (row_at n formats address left).settings.format
            ≡ (row_at n formats address left).span)
        × ((row_at n formats address left).span ≤ left)
  unfolding row_at default_format_settings register_span_for
  row_at-fits formats address left h =
      let s = register_span_for (format_at n formats address).format in
      let p : 1 ≤ s = span_positive (format_at n formats address).format in
      elim (Bool-cases (leb s left)) [
        | inl e ↦ rw e (refl, p, refl, ground arith)
        | inr e ↦ rw e (refl, omega arith, refl, h)
      ]

  word_rows-step :
      (fuel : ℕ) (formats : List (ℕ × FormatSettings R)) (address left : ℕ)
      {rows : List (LogicalRow R)}
      → word_rows n fuel formats
          (address + (row_at n formats address (suc left)).span)
          (suc left - (row_at n formats address (suc left)).span)
        ≡ some rows
      → word_rows n (suc fuel) formats address (suc left)
        ≡ some (row_at n formats address (suc left) ∷ rows)
  unfolding word_rows
  word_rows-step fuel formats address left e = rw (e, word_rows) refl

  -- The loop ends on any fuel that the registers left do not exceed, with rows that tile them.
  pub word_rows-Tiles :
      (fuel : ℕ) (formats : List (ℕ × FormatSettings R)) (address left : ℕ)
      → left ≤ fuel
      → (rows : List (LogicalRow R)) × (word_rows n fuel formats address left ≡ some rows)
        × Tiles address rows (address + left)
  unfolding word_rows
  word_rows-Tiles fuel formats address zero h = ([], refl, omega arith)
  word_rows-Tiles zero formats address (suc left) h = absurd (omega arith)
  word_rows-Tiles (suc fuel) formats address (suc left) h =
      let row = row_at n formats address (suc left) in
      let (same, pos_span, wide, fits) = row_at-fits formats address (suc left) (omega arith) in
      let (rows, e, tiles) =
        word_rows-Tiles fuel formats (address + row.span) (suc left - row.span) (omega arith) in
      let end : address + row.span + (suc left - row.span) ≡ address + suc left = omega arith in
      (
        row ∷ rows,
        word_rows-step fuel formats address left e,
        (same, pos_span, wide, subst (Tiles (address + row.span) rows) end tiles),
      )

  pub bit_rows-Tiles :
      (address : ℕ) (bits : List Bool)
      → Tiles address (bit_rows n address bits) (address + length bits)
  unfolding bit_rows default_format_settings register_span_for
  bit_rows-Tiles address [] = omega arith
  bit_rows-Tiles address (b ∷ bits) =
      let end : address + 1 + length bits ≡ address + suc (length bits) = omega arith in
      (
        refl,
        omega arith,
        refl,
        subst (Tiles (address + 1) (bit_rows n (address + 1) bits)) end
            (bit_rows-Tiles (address + 1) bits),
      )

replicate_lem : (m v k : ℕ) → k < m → get_elem? (replicate m v) k ≡ some v
replicate_lem zero v k h = absurd (omega arith)
replicate_lem (suc m) v zero h = refl
replicate_lem (suc m) v (suc k) h = replicate_lem m v k (omega arith)

-- The row that covers an address, `index` rows after the first.
pub record IsCovered {R : Type 0} (address : ℕ) (rows : List (LogicalRow R)) (index : ℕ)
    : Type 0 where
  pub row : LogicalRow R
  pub found : get_elem? rows index ≡ some row
  pub from : row.address ≤ address
  pub until : address < row.address + row.span

module _ {R : Type 0} where
  start_before_end : (a : ℕ) (rows : List (LogicalRow R)) (end : ℕ) → Tiles a rows end → a ≤ end
  start_before_end a [] end h = omega arith
  start_before_end a (row ∷ rows) end (same, positive, wide, h) =
      let rest = start_before_end (a + row.span) rows end h in omega arith

  -- A row lies inside the range, and is as wide as its format takes.
  pub row_within_range :
      (a : ℕ) (rows : List (LogicalRow R)) (end : ℕ) (j : ℕ) (row : LogicalRow R)
      → Tiles a rows end
      → get_elem? rows j ≡ some row
      → (a ≤ row.address)
        × (row.address + row.span ≤ end)
        × (register_span_for row.settings.format ≡ row.span)
  row_within_range a [] end j row h e = cc
  row_within_range a (r ∷ rows) end zero row (same, positive, wide, h) e =
      let found : r ≡ row = cc in
      let rest = start_before_end (a + r.span) rows end h in
      subst
        (λ r.
          (a ≤ r.address)
          × (r.address + r.span ≤ end)
          × (register_span_for r.settings.format ≡ r.span))
        found (omega arith, omega arith, wide)
  row_within_range a (r ∷ rows) end (suc j) row (same, positive, wide, h) e =
      let (from, to, fits) = row_within_range (a + r.span) rows end j row h e in
      (omega arith, to, fits)

  -- The index map has one entry for each register that the rows cover.
  pub length-row_indices :
      (i a : ℕ) (rows : List (LogicalRow R)) (end : ℕ)
      → Tiles a rows end
      → a + length (row_indices i rows) ≡ end
  unfolding row_indices
  length-row_indices i a [] end h = omega arith
  length-row_indices i a (row ∷ rows) end (same, positive, wide, h) =
      let rest = length-row_indices (i + 1) (a + row.span) rows end h in
      let here = length-replicate row.span i in
      let split = length-append (replicate row.span i) (row_indices (i + 1) rows) in
      omega (arith, rest, here, split)

  -- An entry after those of the first row stands in the map of the other rows.
  row_indices-later :
      (i : ℕ) (row : LogicalRow R) (rows : List (LogicalRow R)) (k : ℕ)
      → row.span ≤ k
      → get_elem? (row_indices i (row ∷ rows)) k
        ≡ get_elem? (row_indices (i + 1) rows) (k - row.span)
  unfolding row_indices
  row_indices-later i row rows k h =
      let firsts = replicate row.span i in
      let shift : length firsts + (k - row.span) ≡ k = omega (arith, length-replicate row.span i) in
      subst
        (λ m.
          get_elem? (firsts ++ row_indices (i + 1) rows) m
          ≡ get_elem? (row_indices (i + 1) rows) (k - row.span))
        shift (get_elem?-append_right firsts (row_indices (i + 1) rows) (k - row.span))

  row_indices-first :
      (i : ℕ) (row : LogicalRow R) (rows : List (LogicalRow R)) (k : ℕ)
      → k < row.span
      → get_elem? (row_indices i (row ∷ rows)) k ≡ some i
  unfolding row_indices
  row_indices-first i row rows k h =
      let here = length-replicate row.span i in
      get_elem?-append_left (replicate row.span i) (row_indices (i + 1) rows) k
        (omega (arith, here))
      ∙ replicate_lem row.span i k h

  -- The index map sends a register to the row that covers its address.
  pub row_indices-IsCovered :
      (i a : ℕ) (rows : List (LogicalRow R)) (end k : ℕ)
      → Tiles a rows end
      → a + k < end
      → (j : ℕ) × (get_elem? (row_indices i rows) k ≡ some (i + j)) × IsCovered (a + k) rows j
  row_indices-IsCovered i a [] end k h l = absurd (omega arith)
  row_indices-IsCovered i a (row ∷ rows) end k (same, positive, wide, h) l =
      elim (Bool-cases (ltb k row.span)) [
        | inl e ↦
            let zeroth : i ≡ i + 0 = omega arith in
            (
              0,
              row_indices-first i row rows k (ground arith) ∙ ap some zeroth,
              record { row = row; found = refl; from = omega arith; until = ground arith },
            )
        | inr e ↦
            let past : row.span ≤ k = ground arith in
            let at : a + row.span + (k - row.span) ≡ a + k = omega arith in
            let (j, found, covered) =
              row_indices-IsCovered (i + 1) (a + row.span) rows end (k - row.span) h
                (omega arith) in
            let next : i + 1 + j ≡ i + suc j = omega arith in
            (
              suc j,
              row_indices-later i row rows k past ∙ found ∙ ap some next,
              record {
                row = covered.row;
                found = covered.found;
                from = subst (λ m. covered.row.address ≤ m) at covered.from;
                until = subst (λ m. m < covered.row.address + covered.row.span) at covered.until;
              },
            )
      ]
