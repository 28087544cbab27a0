-- ===== src/Coalesce/Chunks.antt =====
-- The loop of `appendPlansForRun` in core/poll/ReadCoalescer.cpp that chops a run into requests.
use native.Mathlib.Decide.{dec_lt}
use modbus_viewer.Prelude.{
  ℕ, zero, suc, ◌+◌, ◌≤◌, ◌<◌, min, ◌≡◌, refl, sym, ◌∙◌, ◌⊎◌, inl, inr, Bool-cases, List, [], ◌∷◌,
  ◌++◌, some, ◌>>=◌, >>=-eq-some, ltb, arith, All, All-append, Any, Any-append_left,
  Any-append_right,
}
use modbus_viewer.Coalesce.{
  GroupKey, MergedRun, ReadRequestPlan, chunk_plan, plans_from, plans_for_run, plans_for_runs,
}

module _ (run : MergedRun) (key : GroupKey) (max_count : ℕ) where
  -- The chunk that begins at an address.
  abbrev pub chunk_at : ℕ → ReadRequestPlan
  chunk_at start = chunk_plan run key start (min (start + max_count) run.end_address_exclusive)

  plans_from_done :
      (fuel start : ℕ)
      → run.end_address_exclusive ≤ start
      → plans_from fuel run key max_count start ≡ some []
  unfolding plans_from
  plans_from_done zero start h = ground arith
  plans_from_done (suc fuel) start h = ground arith

  plans_from_more :
      (fuel start : ℕ)
      → start < run.end_address_exclusive
      → plans_from (suc fuel) run key max_count start ≡ (
          plans_from fuel run key max_count (start + max_count) >>= λ plans.
          some (chunk_at start ∷ plans))
  unfolding plans_from
  plans_from_more fuel start h = ground arith

  plans_from_total :
      (fuel start : ℕ)
      → 1 ≤ max_count
      → run.end_address_exclusive ≤ fuel + start
      → (plans : List ReadRequestPlan) × (plans_from fuel run key max_count start ≡ some plans)
  plans_from_total zero start h k = ([], plans_from_done zero start (omega arith))
  plans_from_total (suc fuel) start h k = elim (Bool-cases (ltb start run.end_address_exclusive)) [
    | inr done ↦ ([], plans_from_done (suc fuel) start (ground arith))
    | inl more ↦
        let (plans, e) = plans_from_total fuel (start + max_count) h (omega arith) in
        (chunk_at start ∷ plans, rw (plans_from_more fuel start (ground arith), e) refl)
  ]

  -- With a ceiling of one at least, the loop ends.
  pub plans_for_run_total :
      1 ≤ max_count
      → (plans : List ReadRequestPlan) × (plans_for_run run key max_count ≡ some plans)
  unfolding plans_for_run
  plans_for_run_total h = plans_from_total _ run.start_address h (omega arith)

  -- What a round of the loop leaves: nothing, or a chunk and the plans of the later rounds.
  plans_from_cases :
      (fuel start : ℕ) (plans : List ReadRequestPlan)
      → plans_from (suc fuel) run key max_count start ≡ some plans
      → ((run.end_address_exclusive ≤ start) × (plans ≡ []))
        ⊎ ((rest : List ReadRequestPlan) × (start < run.end_address_exclusive)
            × (plans_from fuel run key max_count (start + max_count) ≡ some rest)
            × (plans ≡ chunk_at start ∷ rest))
  plans_from_cases fuel start plans e = elim (Bool-cases (ltb start run.end_address_exclusive)) [
    | inr done ↦ inl (ground arith, cc (plans_from_done (suc fuel) start (ground arith), e))
    | inl more ↦
        let (rest, er, ep) =
          >>=-eq-some (plans_from fuel run key max_count (start + max_count)) _
            (sym (plans_from_more fuel start (ground arith)) ∙ e) in
        inr (rest, ground arith, er, cc)
  ]

  plans_from-zero :
      (start : ℕ) (plans : List ReadRequestPlan)
      → plans_from zero run key max_count start ≡ some plans
      → (run.end_address_exclusive ≤ start) × (plans ≡ [])
  unfolding plans_from
  plans_from-zero start plans e = ground arith

  module _ (P : ReadRequestPlan → Type 0) where
    plans_from-All :
        (fuel start : ℕ) (plans : List ReadRequestPlan)
        → ((s : ℕ) → start ≤ s → s < run.end_address_exclusive → P (chunk_at s))
        → plans_from fuel run key max_count start ≡ some plans
        → All P plans
    plans_from-All zero start plans chunk e = rw ((plans_from-zero start plans e).1) tt
    plans_from-All (suc fuel) start plans chunk e = elim (plans_from_cases fuel start plans e) [
      | inl (_, empty) ↦ rw empty tt
      | inr (rest, more, er, ep) ↦ rw ep (
        chunk start (omega arith) more,
        plans_from-All fuel (start + max_count) rest (λ s h k. chunk s (omega arith) k) er,
      )
    ]

    -- What holds of every chunk holds of every plan.
    pub plans_for_run-All :
        (plans : List ReadRequestPlan)
        → ((s : ℕ) → run.start_address ≤ s → s < run.end_address_exclusive → P (chunk_at s))
        → plans_for_run run key max_count ≡ some plans
        → All P plans
    unfolding plans_for_run
    plans_for_run-All plans chunk e = plans_from-All _ run.start_address plans chunk e

    plans_from-Any :
        (fuel start a : ℕ) (plans : List ReadRequestPlan)
        → start ≤ a
        → a < run.end_address_exclusive
        → ((s : ℕ) → s ≤ a → a < s + max_count → P (chunk_at s))
        → plans_from fuel run key max_count start ≡ some plans
        → Any P plans
    plans_from-Any zero start a plans lo hi chunk e =
        absurd (omega (arith, (plans_from-zero start plans e).0))
    plans_from-Any (suc fuel) start a plans lo hi chunk e =
        elim (plans_from_cases fuel start plans e) [
          | inl (done, empty) ↦ absurd (omega arith)
          | inr (rest, more, er, ep) ↦ elim (dec_lt a (start + max_count)) [
            | yes here ↦ rw ep (inl (chunk start lo here))
            | no later ↦
                rw ep
                  (inr (plans_from-Any fuel (start + max_count) a rest (omega arith) hi chunk er))
          ]
        ]

    -- Every address of the run lies in a chunk.
    pub plans_for_run-Any :
        (a : ℕ) (plans : List ReadRequestPlan)
        → run.start_address ≤ a
        → a < run.end_address_exclusive
        → ((s : ℕ) → s ≤ a → a < s + max_count → P (chunk_at s))
        → plans_for_run run key max_count ≡ some plans
        → Any P plans
    unfolding plans_for_run
    plans_for_run-Any a plans lo hi chunk e =
        plans_from-Any _ run.start_address a plans lo hi chunk e

module _ (key : GroupKey) (max_count : ℕ) where
  pub plans_for_runs_total :
      (runs : List MergedRun)
      → 1 ≤ max_count
      → (plans : List ReadRequestPlan) × (plans_for_runs runs key max_count ≡ some plans)
  unfolding plans_for_runs
  plans_for_runs_total [] h = ([], refl)
  plans_for_runs_total (run ∷ runs) h =
      let (plans, e) = plans_for_run_total run key max_count h in
      let (others, eo) = plans_for_runs_total runs h in (plans ++ others, rw (e, eo) refl)

  module _ (P : ReadRequestPlan → Type 0) (Q : MergedRun → Type 0) where
    pub plans_for_runs-All :
        (runs : List MergedRun) (plans : List ReadRequestPlan)
        → ((run : MergedRun) (ps : List ReadRequestPlan)
            → Q run
            → plans_for_run run key max_count ≡ some ps
            → All P ps)
        → All Q runs
        → plans_for_runs runs key max_count ≡ some plans
        → All P plans
    unfolding plans_for_runs
    plans_for_runs-All [] plans one q e = let empty : plans ≡ [] = cc in rw empty tt
    plans_for_runs-All (run ∷ runs) plans one q e =
        let (ps, ep, e') = >>=-eq-some (plans_for_run run key max_count) _ e in
        let (qs, eq, e'') = >>=-eq-some (plans_for_runs runs key max_count) _ e' in
        let whole : plans ≡ ps ++ qs = cc in
        rw whole (All-append P ps qs (one run ps q.0 ep) (plans_for_runs-All runs qs one q.1 eq))

    pub plans_for_runs-Any :
        (runs : List MergedRun) (plans : List ReadRequestPlan)
        → ((run : MergedRun) (ps : List ReadRequestPlan)
            → Q run
            → plans_for_run run key max_count ≡ some ps
            → Any P ps)
        → Any Q runs
        → plans_for_runs runs key max_count ≡ some plans
        → Any P plans
    unfolding plans_for_runs
    plans_for_runs-Any [] plans one q e = absurd q
    plans_for_runs-Any (run ∷ runs) plans one q e =
        let (ps, ep, e') = >>=-eq-some (plans_for_run run key max_count) _ e in
        let (qs, eq, e'') = >>=-eq-some (plans_for_runs runs key max_count) _ e' in
        let whole : plans ≡ ps ++ qs = cc in
        rw whole (elim q [
          | inl h ↦ Any-append_left P ps qs (one run ps h ep)
          | inr h ↦ Any-append_right P ps qs (plans_for_runs-Any runs qs one h eq)
        ])
