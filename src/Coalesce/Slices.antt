-- ===== src/Coalesce/Slices.antt =====
-- The plans of core/poll/ReadCoalescer.cpp as requests, and their slices.
use modbus_viewer.Prelude.{
  ℕ, ◌+◌, ◌≤◌, ◌<◌, min, ◌≡◌, refl, sym, ap, ◌∙◌, inl, inr, Bool-cases, List, [], ◌∷◌, ◌++◌,
  append_assoc, some, >>=-eq-some, leb, arith, All, All-append, All-mono, All-both, All-get_elem?,
  length, length-append, get_elem?, get_elem?-append_right,
}
use modbus_viewer.Model.{RegisterType}
use modbus_viewer.Coalesce.{
  PollTarget, end_address_exclusive, CoveredTarget, ReadRequestPlan, CoalescingOptions,
  max_count_for, GroupKey, key_of, key_eq, Indexed, MergedRun, merge_by_gap, overlap_start,
  overlap_end, slice, covered_by, chunk_plan, indices_of, sort_indices, plans_for_key,
  plans_for_keys, coalesce, sort_keys, collect_keys,
}
use modbus_viewer.Coalesce.Sorting.{IsEntry, key_eq→eq, sort_indices-All}
use modbus_viewer.Coalesce.Merging.{merge_by_gap-bounded, merge_by_gap-All}
use modbus_viewer.Coalesce.Chunks.{
  chunk_at, plans_for_run-All, plans_for_runs-All, plans_for_runs_total,
}

-- The slice lies in the plan's values and in the target's, names a target of the plan's device and
-- region, and both offsets mean the same register address.
pub record IsSlice (targets : List PollTarget) (plan : ReadRequestPlan) (c : CoveredTarget)
    : Type 0 where
  pub target : PollTarget
  pub found : get_elem? targets c.target_index ≡ some target
  pub same_unit : plan.unit_id ≡ target.unit_id
  pub same_type : plan.register_type ≡ target.register_type
  pub nonempty : 0 < c.count
  pub in_plan : c.offset_in_plan + c.count ≤ plan.quantity
  pub in_target : c.offset_in_target + c.count ≤ target.quantity
  pub aligned : plan.start_address + c.offset_in_plan ≡ target.start_address + c.offset_in_target

pub record IsRequest (targets : List PollTarget) (options : CoalescingOptions)
    (plan : ReadRequestPlan) : Type 0 where
  pub nonempty : 0 < plan.quantity
  pub bounded : plan.quantity ≤ max_count_for options plan.register_type
  pub in_space : plan.start_address + plan.quantity ≤ 65536
  pub slices : All (IsSlice targets plan) plan.covered

-- The targets address registers that exist.
abbrev pub InSpace : List PollTarget → Type 0
InSpace targets = All (λ t. end_address_exclusive t ≤ 65536) targets

-- The ceilings that a read request can carry.
pub record IsValidOptions (options : CoalescingOptions) : Type 0 where
  pub bits_pos : 0 < options.max_bits_per_request
  pub bits_fit : options.max_bits_per_request < 65536
  pub registers_pos : 0 < options.max_registers_per_request
  pub registers_fit : options.max_registers_per_request < 65536

pub max_count_for_bounds :
    (options : CoalescingOptions) (type : RegisterType)
    → IsValidOptions options
    → (0 < max_count_for options type) × (max_count_for options type < 65536)
unfolding max_count_for
max_count_for_bounds options type v = ground arith

module _ (targets : List PollTarget) where
  indices_of-IsEntry_from :
      (front ts : List PollTarget) (i : ℕ) (key : GroupKey)
      → targets ≡ front ++ ts
      → length front ≡ i
      → All (IsEntry targets key) (indices_of ts i key)
  unfolding indices_of
  indices_of-IsEntry_from front [] i key e h = tt
  indices_of-IsEntry_from front (t ∷ ts) i key e h =
      let later =
        indices_of-IsEntry_from (front ++ (t ∷ [])) ts (i + 1) key
          (e ∙ sym (append_assoc front (t ∷ []) ts))
          (omega (arith, length-append front (t ∷ []))) in
      elim (Bool-cases (key_eq (key_of t) key)) [
        | inr other ↦ rw other later
        | inl same ↦
            let at : length front + 0 ≡ i = omega arith in
            let here : get_elem? targets i ≡ some t =
              ap (λ xs. get_elem? xs i) e ∙ rw (← at) (get_elem?-append_right front (t ∷ ts) 0) in
            rw same (record { found = here; grouped = key_eq→eq (key_of t) key same }, later)
      ]

  pub indices_of-IsEntry : (key : GroupKey) → All (IsEntry targets key) (indices_of targets 0 key)
  indices_of-IsEntry key = indices_of-IsEntry_from [] targets 0 key refl refl

  module _ (key : GroupKey) (max_count : ℕ) (run : MergedRun) (s : ℕ) where
    -- One slice of a chunk.
    slice-IsSlice :
        (e : Indexed)
        → s < 65536
        → s < run.end_address_exclusive
        → run.end_address_exclusive ≤ 65536
        → max_count < 65536
        → IsEntry targets key e
        → overlap_start e s < overlap_end e (min (s + max_count) run.end_address_exclusive)
        → IsSlice targets
            (chunk_at run key max_count s)
            (slice e s (min (s + max_count) run.end_address_exclusive))
    unfolding chunk_plan slice overlap_start overlap_end
    slice-IsSlice e hs he hb hm entry h = record {
      target = e.target;
      found = entry.found;
      same_unit = ap (λ (k : GroupKey). k.unit_id) (sym entry.grouped);
      same_type = ap (λ (k : GroupKey). k.register_type) (sym entry.grouped);
      nonempty = omega arith;
      in_plan = omega arith;
      in_target = omega arith;
      aligned = omega arith;
    }

    covered_by-IsSlice :
        (es : List Indexed)
        → s < 65536
        → s < run.end_address_exclusive
        → run.end_address_exclusive ≤ 65536
        → max_count < 65536
        → All (IsEntry targets key) es
        → All
            (IsSlice targets (chunk_at run key max_count s))
            (covered_by es s (min (s + max_count) run.end_address_exclusive))
    unfolding covered_by
    covered_by-IsSlice [] hs he hb hm entries = tt
    covered_by-IsSlice (e ∷ es) hs he hb hm entries =
        let later = covered_by-IsSlice es hs he hb hm entries.1 in
        elim (Bool-cases (
          leb (overlap_end e (min (s + max_count) run.end_address_exclusive))
            (overlap_start e s))) [
              | inl empty ↦ rw empty later
              | inr full ↦ rw full (slice-IsSlice e hs he hb hm entries.0 (ground arith), later)
            ]

    chunk-IsRequest :
        (options : CoalescingOptions)
        → s < run.end_address_exclusive
        → run.end_address_exclusive ≤ 65536
        → 0 < max_count
        → max_count < 65536
        → max_count ≡ max_count_for options key.register_type
        → All (IsEntry targets key) run.targets
        → IsRequest targets options (chunk_at run key max_count s)
    chunk-IsRequest options he hb hp hm ceiling entries =
        let covered = covered_by-IsSlice run.targets (omega arith) he hb hm entries in
        unfold chunk_plan in
        record {
          nonempty = omega arith;
          bounded = omega arith;
          in_space = omega arith;
          slices = covered;
        }

  module _ (options : CoalescingOptions) where
    plans_for_key-IsRequest :
        (key : GroupKey) (plans : List ReadRequestPlan)
        → IsValidOptions options
        → InSpace targets
        → plans_for_key targets options key ≡ some plans
        → All (IsRequest targets options) plans
    unfolding plans_for_key
    plans_for_key-IsRequest key plans v space e =
        let entries = sort_indices-All (IsEntry targets key) _ (indices_of-IsEntry key) in
        let ends =
          All-mono (IsEntry targets key) (λ x. end_address_exclusive x.target ≤ 65536)
            (λ x entry. All-get_elem? _ targets x.index x.target space entry.found) _ entries in
        let (pos, fits) = max_count_for_bounds options key.register_type v in
        plans_for_runs-All key (max_count_for options key.register_type) (IsRequest targets options)
          (λ r. (r.end_address_exclusive ≤ 65536) × All (IsEntry targets key) r.targets)
          (merge_by_gap (sort_indices (indices_of targets 0 key)) options.max_gap_to_bridge) plans
          (λ r ps q er.
            plans_for_run-All r key (max_count_for options key.register_type)
              (IsRequest targets options) ps
              (λ s lo hi.
                chunk-IsRequest key (max_count_for options key.register_type) r s options hi q.0 pos
                  fits refl q.1)
              er)
          (All-both _ _ _ (merge_by_gap-bounded options.max_gap_to_bridge 65536 _ ends)
            (merge_by_gap-All options.max_gap_to_bridge (IsEntry targets key) _ entries))
          e

    plans_for_keys-IsRequest :
        (keys : List GroupKey) (plans : List ReadRequestPlan)
        → IsValidOptions options
        → InSpace targets
        → plans_for_keys targets options keys ≡ some plans
        → All (IsRequest targets options) plans
    unfolding plans_for_keys
    plans_for_keys-IsRequest [] plans v space e = let empty : plans ≡ [] = cc in rw empty tt
    plans_for_keys-IsRequest (key ∷ keys) plans v space e =
        let (ps, ep, e') = >>=-eq-some (plans_for_key targets options key) _ e in
        let (qs, eq, e'') = >>=-eq-some (plans_for_keys targets options keys) _ e' in
        let whole : plans ≡ ps ++ qs = cc in
        rw whole (
          All-append (IsRequest targets options) ps qs (plans_for_key-IsRequest key ps v space ep)
            (plans_for_keys-IsRequest keys qs v space eq))

    plans_for_keys_total :
        (keys : List GroupKey)
        → IsValidOptions options
        → (plans : List ReadRequestPlan) × (plans_for_keys targets options keys ≡ some plans)
    unfolding plans_for_keys plans_for_key
    plans_for_keys_total [] v = ([], refl)
    plans_for_keys_total (key ∷ keys) v =
        let (ps, ep) =
          plans_for_runs_total key (max_count_for options key.register_type)
            (merge_by_gap (sort_indices (indices_of targets 0 key)) options.max_gap_to_bridge)
            (max_count_for_bounds options key.register_type v).0 in
        let (qs, eq) = plans_for_keys_total keys v in (ps ++ qs, rw (ep, eq) refl)

    -- With valid ceilings and for targets that address registers that exist, the coalescer ends. Each
    -- of its plans asks for one register at least, for no more than its region's ceiling, and for none
    -- behind address 65535; and each of its slices lies in the plan's values and in its target's
    -- values, where both offsets mean the same register of the same device and region.
    pub coalesce-IsRequest :
        IsValidOptions options
        → InSpace targets
        → (plans : List ReadRequestPlan) × (coalesce targets options ≡ some plans)
          × All (IsRequest targets options) plans
    unfolding coalesce
    coalesce-IsRequest v space =
        let (plans, e) = plans_for_keys_total (sort_keys (collect_keys targets [])) v in
        (plans, e, plans_for_keys-IsRequest _ plans v space e)
