-- ===== src/Coalesce/Coverage.antt =====
-- What the plans of core/poll/ReadCoalescer.cpp read of each target.
use modbus_viewer.Prelude.{
  ℕ, zero, suc, ◌+◌, ◌≤◌, ◌<◌, ◌≡◌, refl, sym, ap, ◌∙◌, inl, inr, true, Bool-cases, List, [], ◌∷◌,
  ◌++◌, some, >>=-eq-some, leb, arith, Any, Any_find, Any-both, Any-append_left, Any-append_right,
  get_elem?,
}
use modbus_viewer.Coalesce.{
  PollTarget, CoveredTarget, ReadRequestPlan, CoalescingOptions, max_count_for, GroupKey, key_of,
  key_eq, Indexed, MergedRun, merge_by_gap, overlap_start, overlap_end, slice, covered_by,
  chunk_plan, plans_for_run, indices_of, sort_indices, plans_for_key, plans_for_keys, coalesce,
  sort_keys, collect_keys,
}
use modbus_viewer.Coalesce.Sorting.{
  key_eq_refl, sort_indices-Any, sort_indices-IsSorted, collect_keys_all, sort_keys-Any,
}
use modbus_viewer.Coalesce.Merging.{IsRun, merge_by_gap-IsRun, merge_by_gap-Any}
use modbus_viewer.Coalesce.Chunks.{plans_for_run-Any, plans_for_runs-Any}

-- The slice holds element `o` of target `i`.
abbrev pub Holds : ℕ → ℕ → CoveredTarget → Type 0
Holds i o c = (c.target_index ≡ i) × (c.offset_in_target ≤ o) × (o < c.offset_in_target + c.count)

abbrev pub Reads : ℕ → ℕ → ReadRequestPlan → Type 0
Reads i o plan = Any (Holds i o) plan.covered

indices_of-Any :
    (ts : List PollTarget) (i k : ℕ) (t : PollTarget) (key : GroupKey)
    → get_elem? ts k ≡ some t
    → key_of t ≡ key
    → Any (λ e. e ≡ record { index = i + k; target = t }) (indices_of ts i key)
unfolding indices_of
indices_of-Any [] i k t key e h = cc
indices_of-Any (x ∷ ts) i zero t key e h =
    let same : x ≡ t = cc in
    let key_same : key_eq (key_of x) key ≡ true = rw (same, ← h) (key_eq_refl (key_of t)) in
    let at : i ≡ i + 0 = omega arith in
    rw key_same (
      inl (
        ap (λ (n : ℕ). record { index = n; target = x }) at
        ∙ ap (λ (y : PollTarget). record { index = i + 0; target = y }) same))
indices_of-Any (x ∷ ts) i (suc k) t key e h =
    let at : i + 1 + k ≡ i + suc k = omega arith in
    let later : Any (λ y. y ≡ record { index = i + suc k; target = t })
        (indices_of ts (i + 1) key) =
      rw at at (indices_of-Any ts (i + 1) k t key e h) in
    elim (Bool-cases (key_eq (key_of x) key)) [
      | inl here ↦ rw here (inr later)
      | inr other ↦ rw other later
    ]

module _ (i o : ℕ) (t : PollTarget) where
  abbrev entry : Indexed
  entry = record { index = i; target = t }

  covered_by-Holds :
      (es : List Indexed) (chunk_start chunk_end : ℕ)
      → chunk_start ≤ t.start_address + o
      → t.start_address + o < chunk_end
      → o < t.quantity
      → Any (λ e. e ≡ entry) es
      → Any (Holds i o) (covered_by es chunk_start chunk_end)
  unfolding covered_by overlap_start overlap_end slice
  covered_by-Holds [] s n lo hi h m = absurd m
  covered_by-Holds (e ∷ es) s n lo hi h (inl same) =
      let index : e.index ≡ i = ap (λ (x : Indexed). x.index) same in
      let start : e.target.start_address ≡ t.start_address =
        ap (λ (x : Indexed). x.target.start_address) same in
      let size : e.target.quantity ≡ t.quantity = ap (λ (x : Indexed). x.target.quantity) same in
      elim (Bool-cases (leb (overlap_end e n) (overlap_start e s))) [
        | inl empty ↦ absurd (ground arith)
        | inr full ↦ rw full (inl (index, omega arith, omega arith))
      ]
  covered_by-Holds (e ∷ es) s n lo hi h (inr m) =
      let later = covered_by-Holds es s n lo hi h m in
      elim (Bool-cases (leb (overlap_end e n) (overlap_start e s))) [
        | inl empty ↦ rw empty later
        | inr full ↦ rw full (inr later)
      ]

  run-Reads :
      (key : GroupKey) (max_count : ℕ) (run : MergedRun) (plans : List ReadRequestPlan)
      → o < t.quantity
      → IsRun run
      → Any (λ e. e ≡ entry) run.targets
      → plans_for_run run key max_count ≡ some plans
      → Any (Reads i o) plans
  unfolding chunk_plan
  run-Reads key max_count run plans h spans m e =
      let (x, inside, same) = Any_find _ (λ y. y ≡ entry) run.targets spans m in
      let start : x.target.start_address ≡ t.start_address =
        ap (λ (y : Indexed). y.target.start_address) same in
      let size : x.target.quantity ≡ t.quantity = ap (λ (y : Indexed). y.target.quantity) same in
      let (first, last) = inside in
      plans_for_run-Any run key max_count (Reads i o) (t.start_address + o) plans (omega arith)
        (omega arith) (λ s lo hi. covered_by-Holds run.targets s _ lo (omega arith) h m) e

  plans_for_key-Reads :
      (targets : List PollTarget) (options : CoalescingOptions) (plans : List ReadRequestPlan)
      → get_elem? targets i ≡ some t
      → o < t.quantity
      → plans_for_key targets options (key_of t) ≡ some plans
      → Any (Reads i o) plans
  unfolding plans_for_key
  plans_for_key-Reads targets options plans found h e =
      let sorted = sort_indices (indices_of targets 0 (key_of t)) in
      let at : 0 + i ≡ i = omega arith in
      let member : Any (λ y. y ≡ entry) sorted =
        sort_indices-Any (λ y. y ≡ entry) _
          (rw at at (indices_of-Any targets 0 i t (key_of t) found refl)) in
      plans_for_runs-Any (key_of t) (max_count_for options t.register_type) (Reads i o)
        (λ r. IsRun r × Any (λ y. y ≡ entry) r.targets)
        (merge_by_gap sorted options.max_gap_to_bridge) plans
        (λ r ps q er.
          run-Reads (key_of t) (max_count_for options t.register_type) r ps h q.0 q.1 er)
        (Any-both IsRun _ _
          (merge_by_gap-IsRun options.max_gap_to_bridge sorted
            (sort_indices-IsSorted (indices_of targets 0 (key_of t))))
          (merge_by_gap-Any options.max_gap_to_bridge (λ y. y ≡ entry) sorted member))
        e

  plans_for_keys-Reads :
      (targets : List PollTarget) (options : CoalescingOptions) (keys : List GroupKey)
      (plans : List ReadRequestPlan)
      → get_elem? targets i ≡ some t
      → o < t.quantity
      → Any (λ k. k ≡ key_of t) keys
      → plans_for_keys targets options keys ≡ some plans
      → Any (Reads i o) plans
  unfolding plans_for_keys
  plans_for_keys-Reads targets options [] plans found h m e = absurd m
  plans_for_keys-Reads targets options (key ∷ keys) plans found h m e =
      let (ps, ep, e') = >>=-eq-some (plans_for_key targets options key) _ e in
      let (qs, eq, e'') = >>=-eq-some (plans_for_keys targets options keys) _ e' in
      let whole : plans ≡ ps ++ qs = cc in
      rw whole (elim m [
        | inl same ↦ Any-append_left (Reads i o) ps qs (
            plans_for_key-Reads targets options ps found h
              (ap (plans_for_key targets options) (sym same) ∙ ep))
        | inr k ↦
            Any-append_right (Reads i o) ps qs
              (plans_for_keys-Reads targets options keys qs found h k eq)
      ])

get_elem?-Any :
    (ts : List PollTarget) (i : ℕ) (t : PollTarget) → get_elem? ts i ≡ some t → Any (λ x. x ≡ t) ts
get_elem?-Any [] i t e = cc
get_elem?-Any (x ∷ ts) zero t e = inl (cc)
get_elem?-Any (x ∷ ts) (suc i) t e = inr (get_elem?-Any ts i t e)

-- Nothing is left out: for every target and every element of it, one of the plans that the coalescer
-- returns has a slice for that target that holds the element.
pub coalesce-Reads :
    (targets : List PollTarget) (options : CoalescingOptions) (plans : List ReadRequestPlan)
    (i o : ℕ) (t : PollTarget)
    → coalesce targets options ≡ some plans
    → get_elem? targets i ≡ some t
    → o < t.quantity
    → Any (Reads i o) plans
unfolding coalesce
coalesce-Reads targets options plans i o t e found h =
    plans_for_keys-Reads i o t targets options (sort_keys (collect_keys targets [])) plans found h
      (sort_keys-Any (λ k. k ≡ key_of t) _
        (collect_keys_all targets [] t (get_elem?-Any targets i t found)))
      e
