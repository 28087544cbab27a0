-- ===== src/Coalesce/Merging.antt =====
-- `mergeByGap` of core/poll/ReadCoalescer.cpp.
use modbus_viewer.Prelude.{
  ℕ, ◌≤◌, ◌⊎◌, inl, inr, Bool-cases, List, [], ◌∷◌, arith, All, All-append, Any, Any-append_left,
  Any-append_right,
}
use modbus_viewer.Coalesce.{
  Indexed, end_address_exclusive, MergedRun, new_run, extend_run, starts_new_run, merge_from,
  merge_by_gap,
}
use modbus_viewer.Coalesce.Sorting.{IsSorted}

-- A run reaches from its first target to the furthest end of its targets.
abbrev pub Spans : ℕ → ℕ → List Indexed → Type 0
Spans first last es =
    All (λ e. (first ≤ e.target.start_address) × (end_address_exclusive e.target ≤ last)) es

abbrev pub IsRun : MergedRun → Type 0
IsRun run = Spans run.start_address run.end_address_exclusive run.targets

Spans-grow :
    (first last last' : ℕ) (es : List Indexed)
    → last ≤ last'
    → Spans first last es
    → Spans first last' es
Spans-grow first last last' [] h s = tt
Spans-grow first last last' (e ∷ es) h s =
    ((s.0.0, omega arith), Spans-grow first last last' es h s.1)

new_run-IsRun : (e : Indexed) → IsRun (new_run e)
unfolding new_run
new_run-IsRun e = ((omega arith, omega arith), tt)

extend_run-IsRun :
    (run : MergedRun) (e : Indexed)
    → run.start_address ≤ e.target.start_address
    → IsRun run
    → IsRun (extend_run run e)
unfolding extend_run
extend_run-IsRun run e h s =
    All-append _ run.targets (e ∷ [])
      (Spans-grow run.start_address run.end_address_exclusive _ run.targets (omega arith) s)
      ((h, omega arith), tt)

module _ (max_gap : ℕ) where
  merge_from-IsRun :
      (run : MergedRun) (es : List Indexed)
      → IsRun run
      → All (λ e. run.start_address ≤ e.target.start_address) es
      → IsSorted es
      → All IsRun (merge_from max_gap run es)
  unfolding merge_from extend_run new_run
  merge_from-IsRun run [] r h s = (r, tt)
  merge_from-IsRun run (e ∷ es) r h s = elim (Bool-cases (starts_new_run max_gap run e)) [
    | inl new ↦ rw (new, merge_from) (r, merge_from-IsRun (new_run e) es (new_run-IsRun e) s.0 s.1)
    | inr old ↦
        rw (old, merge_from)
          (merge_from-IsRun (extend_run run e) es (extend_run-IsRun run e h.0 r) h.1 s.1)
  ]

  pub merge_by_gap-IsRun : (es : List Indexed) → IsSorted es → All IsRun (merge_by_gap es max_gap)
  unfolding merge_by_gap new_run
  merge_by_gap-IsRun [] s = tt
  merge_by_gap-IsRun (e ∷ es) s = merge_from-IsRun (new_run e) es (new_run-IsRun e) s.0 s.1

  merge_from-bounded :
      (bound : ℕ) (run : MergedRun) (es : List Indexed)
      → run.end_address_exclusive ≤ bound
      → All (λ e. end_address_exclusive e.target ≤ bound) es
      → All (λ r. r.end_address_exclusive ≤ bound) (merge_from max_gap run es)
  unfolding merge_from extend_run new_run
  merge_from-bounded bound run [] r h = (r, tt)
  merge_from-bounded bound run (e ∷ es) r h = elim (Bool-cases (starts_new_run max_gap run e)) [
    | inl new ↦ rw (new, merge_from) (r, merge_from-bounded bound (new_run e) es h.0 h.1)
    | inr old ↦
        rw (old, merge_from)
          (merge_from-bounded bound (extend_run run e) es (omega (arith, h.0)) h.1)
  ]

  -- No run ends behind the last end of a target.
  pub merge_by_gap-bounded :
      (bound : ℕ) (es : List Indexed)
      → All (λ e. end_address_exclusive e.target ≤ bound) es
      → All (λ r. r.end_address_exclusive ≤ bound) (merge_by_gap es max_gap)
  unfolding merge_by_gap new_run
  merge_by_gap-bounded bound [] h = tt
  merge_by_gap-bounded bound (e ∷ es) h = merge_from-bounded bound (new_run e) es h.0 h.1

  module _ (P : Indexed → Type 0) where
    merge_from-All :
        (run : MergedRun) (es : List Indexed)
        → All P run.targets
        → All P es
        → All (λ r. All P r.targets) (merge_from max_gap run es)
    unfolding merge_from extend_run new_run
    merge_from-All run [] r h = (r, tt)
    merge_from-All run (e ∷ es) r h = elim (Bool-cases (starts_new_run max_gap run e)) [
      | inl new ↦ rw (new, merge_from) (r, merge_from-All (new_run e) es (h.0, tt) h.1)
      | inr old ↦
          rw (old, merge_from)
            (merge_from-All (extend_run run e) es (All-append P run.targets (e ∷ []) r (h.0, tt))
              h.1)
    ]

    pub merge_by_gap-All :
        (es : List Indexed) → All P es → All (λ r. All P r.targets) (merge_by_gap es max_gap)
    unfolding merge_by_gap new_run
    merge_by_gap-All [] h = tt
    merge_by_gap-All (e ∷ es) h = merge_from-All (new_run e) es (h.0, tt) h.1

    merge_from-Any :
        (run : MergedRun) (es : List Indexed)
        → Any P run.targets ⊎ Any P es
        → Any (λ r. Any P r.targets) (merge_from max_gap run es)
    unfolding merge_from extend_run new_run
    merge_from-Any run [] (inl h) = inl h
    merge_from-Any run [] (inr h) = absurd h
    merge_from-Any run (e ∷ es) h = elim (Bool-cases (starts_new_run max_gap run e)) [
      | inl new ↦
          rw (new, merge_from)
            (elim h [
              | inl k ↦ inl k
              | inr (inl k) ↦ inr (merge_from-Any (new_run e) es (inl (inl k)))
              | inr (inr k) ↦ inr (merge_from-Any (new_run e) es (inr k))
            ])
      | inr old ↦
          rw (old, merge_from)
            (elim h [
              | inl k ↦
                  merge_from-Any (extend_run run e) es
                    (inl (Any-append_left P run.targets (e ∷ []) k))
              | inr (inl k) ↦
                  merge_from-Any (extend_run run e) es
                    (inl (Any-append_right P run.targets (e ∷ []) (inl k)))
              | inr (inr k) ↦ merge_from-Any (extend_run run e) es (inr k)
            ])
    ]

    pub merge_by_gap-Any :
        (es : List Indexed) → Any P es → Any (λ r. Any P r.targets) (merge_by_gap es max_gap)
    unfolding merge_by_gap new_run
    merge_by_gap-Any [] h = absurd h
    merge_by_gap-Any (e ∷ es) (inl h) = merge_from-Any (new_run e) es (inl (inl h))
    merge_by_gap-Any (e ∷ es) (inr h) = merge_from-Any (new_run e) es (inr h)
