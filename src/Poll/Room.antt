-- ===== src/Poll/Room.antt =====
-- The sizes of the caches of core/poll/PollEngine.cpp when values are copied into them.
use modbus_viewer.Prelude.{
  ℕ, zero, suc, ◌+◌, ◌≤◌, ◌<◌, ◌≡◌, refl, sym, ap, ◌∙◌, subst, Bool, true, false, List, [], ◌∷◌,
  map, Option, some, arith, length, get_elem?, set, All, get_elem?-set_self, get_elem?-set_ne,
  length-replicate,
}
use mathlib.Core.Option.{some-injective}
use native.Mathlib.Decide.{ℕ_discrete}
use modbus_viewer.Model.{is_bit_register_type}
use modbus_viewer.Coalesce.{PollTarget, CoveredTarget, ReadRequestPlan}
use modbus_viewer.Coalesce.Slices.{IsSlice}
use modbus_viewer.Poll.Caches.{TargetCache, new_cache, fill_registers, fill_bits, fill_covered}
use modbus_viewer.Poll.Filling.{copy_values-total, set_checked_inside}

-- The number of values that a cache holds for a target of a region.
unfoldable pub room : Bool → TargetCache → ℕ
room true cache = length cache.bit_values
room false cache = length cache.register_values

-- Every target has a cache with as many values as the target has.
unfoldable pub HasRoom : List PollTarget → List TargetCache → Type 0
HasRoom targets caches =
    (i : ℕ) (t : PollTarget)
    → get_elem? targets i ≡ some t
    → (cache : TargetCache) × (get_elem? caches i ≡ some cache)
      × (room (is_bit_register_type t.register_type) cache ≡ t.quantity)

below_of_some {ℓ} :
    {A : Type ℓ} (xs : List A) (i : ℕ) (x : A) → get_elem? xs i ≡ some x → i < length xs
below_of_some [] i x e = ground arith
below_of_some (y ∷ xs) zero x e = omega arith
below_of_some (y ∷ xs) (suc i) x e = omega (arith, below_of_some xs i x e)

pub fill_registers-room :
    (values : List ℕ) (c : CoveredTarget) (cache : TargetCache)
    → c.offset_in_plan + c.count ≤ length values
    → c.offset_in_target + c.count ≤ room false cache
    → (next : TargetCache) × (fill_registers values c cache ≡ some next)
      × ((b : Bool) → room b next ≡ room b cache)
unfolding fill_registers room
fill_registers-room values c cache hv hc =
    let (after, run, copied) =
      copy_values-total c.count c.offset_in_target c.offset_in_plan values cache.register_values hv
        hc in
    let next : TargetCache = record cache { register_values = after; dirty = true } in
    (
      next,
      rw run refl,
      λ b. elim b as (λ k. room k next ≡ room k cache) [ true ↦ refl | false ↦ copied.same_length ],
    )

pub fill_bits-room :
    (values : List Bool) (c : CoveredTarget) (cache : TargetCache)
    → c.offset_in_plan + c.count ≤ length values
    → c.offset_in_target + c.count ≤ room true cache
    → (next : TargetCache) × (fill_bits values c cache ≡ some next)
      × ((b : Bool) → room b next ≡ room b cache)
unfolding fill_bits room
fill_bits-room values c cache hv hc =
    let (after, run, copied) =
      copy_values-total c.count c.offset_in_target c.offset_in_plan values cache.bit_values hv hc in
    let next : TargetCache = record cache { bit_values = after; dirty = true } in
    (
      next,
      rw run refl,
      λ b. elim b as (λ k. room k next ≡ room k cache) [ true ↦ copied.same_length | false ↦ refl ],
    )

set-HasRoom :
    (targets : List PollTarget) (caches : List TargetCache) (i : ℕ) (cache next : TargetCache)
    → HasRoom targets caches
    → get_elem? caches i ≡ some cache
    → ((b : Bool) → room b next ≡ room b cache)
    → HasRoom targets (set caches i next)
unfolding HasRoom
set-HasRoom targets caches i cache next h found same j t e =
    let (old, at_j, fits) = h j t e in
    elim (ℕ_discrete i j) [
      | yes here ↦
          let inside = below_of_some caches i cache found in
          let there : get_elem? (set caches i next) j ≡ some next =
            subst (λ k. get_elem? (set caches i next) k ≡ some next) here
              (get_elem?-set_self caches i next inside) in
          let equal : some cache ≡ some old = sym found ∙ ap (get_elem? caches) here ∙ at_j in
          let fits' =
            subst (λ x. room (is_bit_register_type t.register_type) x ≡ t.quantity)
              (some-injective _ _ (sym equal)) fits in
          (next, there, same (is_bit_register_type t.register_type) ∙ fits')
      | no other ↦ (old, get_elem?-set_ne caches next other ∙ at_j, fits)
    ]

at_target :
    (targets : List PollTarget) (caches : List TargetCache) (c : CoveredTarget) (t : PollTarget)
    → HasRoom targets caches
    → get_elem? targets c.target_index ≡ some t
    → (cache : TargetCache) × (get_elem? caches c.target_index ≡ some cache)
      × (room (is_bit_register_type t.register_type) cache ≡ t.quantity)
unfolding HasRoom
at_target targets caches c t h e = h c.target_index t e

pub fill_covered-HasRoom :
    (targets : List PollTarget) (plan : ReadRequestPlan)
    (fill : CoveredTarget → TargetCache → Option TargetCache) (covered : List CoveredTarget)
    (caches : List TargetCache)
    → ((c : CoveredTarget) (cache : TargetCache)
        → c.offset_in_plan + c.count ≤ plan.quantity
        → c.offset_in_target + c.count ≤ room (is_bit_register_type plan.register_type) cache
        → (next : TargetCache) × (fill c cache ≡ some next)
          × ((b : Bool) → room b next ≡ room b cache))
    → All (IsSlice targets plan) covered
    → HasRoom targets caches
    → (after : List TargetCache) × (fill_covered fill covered caches ≡ some after)
      × HasRoom targets after
unfolding fill_covered
fill_covered-HasRoom targets plan fill [] caches can hs h = (caches, refl, h)
fill_covered-HasRoom targets plan fill (c ∷ covered) caches can (s, hs) h =
    let (cache, found, fits) = at_target targets caches c s.target h s.found in
    let region = ap is_bit_register_type s.same_type in
    let fits' = ap (λ b. room b cache) region ∙ fits in
    let (next, did, same) = can c cache s.in_plan (omega (arith, fits', s.in_target)) in
    let inside = below_of_some caches c.target_index cache found in
    let (after, run, kept) =
      fill_covered-HasRoom targets plan fill covered (set caches c.target_index next) can hs
        (set-HasRoom targets caches c.target_index cache next h found same) in
    (after, rw (found, did, set_checked_inside caches c.target_index next inside) run, kept)

-- The caches that `setTargets` makes.
pub new_caches-HasRoom : (targets : List PollTarget) → HasRoom targets (map new_cache targets)
unfolding HasRoom new_cache room
new_caches-HasRoom [] i t e = ground arith
new_caches-HasRoom (x ∷ ts) zero t e =
    let same : x ≡ t = some-injective _ _ e in (new_cache x, refl, rw (sym same) (new_room x))
  where
    new_room :
        (x : PollTarget) → room (is_bit_register_type x.register_type) (new_cache x) ≡ x.quantity
    new_room x =
        ground (arith, length-replicate x.quantity false, length-replicate {A = ℕ} x.quantity 0)
new_caches-HasRoom (x ∷ ts) (suc i) t e = new_caches-HasRoom ts i t e
