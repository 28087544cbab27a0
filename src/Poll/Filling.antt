-- ===== src/Poll/Filling.antt =====
-- The copying loop of `applyPlanResponse` in core/poll/PollEngine.cpp.
use modbus_viewer.Prelude.{
  ℕ, zero, suc, ◌+◌, ◌≤◌, ◌<◌, ◌≡◌, refl, sym, ◌∙◌, List, some, arith, length, get_elem?, set,
  length-set, get_elem?_below, get_elem?-set_self, get_elem?-set_ne,
}
use modbus_viewer.Poll.Caches.{set_checked, copy_values}

pub set_checked_inside {ℓ} :
    {A : Type ℓ} (xs : List A) (i : ℕ) (v : A)
    → i < length xs
    → set_checked xs i v ≡ some (set xs i v)
unfolding set_checked
set_checked_inside xs i v h = ground arith

-- What a list becomes when a piece of another is copied into it.
pub record IsCopied {ℓ} {A : Type ℓ} (n in_target in_plan : ℕ) (values before after : List A)
    : Type ℓ where
  pub same_length : length after ≡ length before
  pub inside : (i : ℕ) → i < n → get_elem? after (in_target + i) ≡ get_elem? values (in_plan + i)
  pub below : (j : ℕ) → j < in_target → get_elem? after j ≡ get_elem? before j
  pub above : (j : ℕ) → in_target + n ≤ j → get_elem? after j ≡ get_elem? before j

copy_round {ℓ} :
    {A : Type ℓ} (n in_target in_plan : ℕ) (values before after : List A) (v : A)
    → in_target < length before
    → get_elem? values in_plan ≡ some v
    → IsCopied n (in_target + 1) (in_plan + 1) values (set before in_target v) after
    → IsCopied (suc n) in_target in_plan values before after
copy_round n in_target in_plan values before after v h e c = record {
  same_length = c.same_length ∙ length-set before in_target v;
  inside = inside;
  below =
      λ j l. c.below j (omega arith) ∙ get_elem?-set_ne before v (λ q. absurd (omega (arith, q)));
  above =
      λ j l. c.above j (omega arith) ∙ get_elem?-set_ne before v (λ q. absurd (omega (arith, q)));
}
  where
    inside : (i : ℕ) → i < suc n → get_elem? after (in_target + i) ≡ get_elem? values (in_plan + i)
    inside zero l =
        let first : in_target + 0 ≡ in_target = omega arith in
        let start : in_plan + 0 ≡ in_plan = omega arith in
        rw (first, start)
          (c.below in_target (omega arith) ∙ get_elem?-set_self before in_target v h ∙ sym e)
    inside (suc i) l =
        let next : in_target + suc i ≡ in_target + 1 + i = omega arith in
        let from : in_plan + suc i ≡ in_plan + 1 + i = omega arith in
        rw (next, from) (c.inside i (omega arith))

pub copy_values-total {ℓ} :
    {A : Type ℓ} (n in_target in_plan : ℕ) (values before : List A)
    → in_plan + n ≤ length values
    → in_target + n ≤ length before
    → (after : List A) × (copy_values n in_target in_plan values before ≡ some after)
      × IsCopied n in_target in_plan values before after
unfolding copy_values
copy_values-total zero in_target in_plan values before hv hb = (
  before,
  refl,
  record {
    same_length = refl;
    inside = λ i l. absurd (omega arith);
    below = λ j l. refl;
    above = λ j l. refl;
  },
)
copy_values-total (suc n) in_target in_plan values before hv hb =
    let (v, e) = get_elem?_below values in_plan (omega arith) in
    let (after, run, c) =
      copy_values-total n (in_target + 1) (in_plan + 1) values (set before in_target v)
        (omega arith) (omega (arith, length-set before in_target v)) in
    (
      after,
      rw (e, set_checked_inside before in_target v (omega arith)) run,
      copy_round n in_target in_plan values before after v (omega arith) e c,
    )
