-- ===== src/Poll/Applying.antt =====
-- What a response to a plan does to the caches, and what a short one does.
use modbus_viewer.Prelude.{
  ℕ, zero, suc, ◌+◌, ◌≤◌, ◌<◌, ◌≡◌, refl, ◌∙◌, subst, Bool, true, false, List, ◌∷◌, Option, none,
  some, ◌>>=◌, arith, length, get_elem?, All, get_elem?_above,
}
use native.Mathlib.Decide.{ℕ_discrete}
use modbus_viewer.Model.{is_bit_register_type}
use modbus_viewer.Pdu.Responses.{PduDecodeResult, success}
use modbus_viewer.Coalesce.{PollTarget, CoveredTarget, ReadRequestPlan}
use modbus_viewer.Coalesce.Slices.{IsSlice}
use modbus_viewer.Poll.Caches.{
  TargetCache, set_checked, copy_values, fill_registers, fill_bits, fill_covered, filled,
  apply_values, apply_to_caches, decode_plan_registers, decode_plan_bits,
}
use modbus_viewer.Poll.Room.{
  HasRoom, room, fill_registers-room, fill_bits-room, fill_covered-HasRoom,
}

apply_registers :
    (plan : ReadRequestPlan) (pdu : List ℕ) (caches : List TargetCache)
    (result : PduDecodeResult (List ℕ))
    → is_bit_register_type plan.register_type ≡ false
    → decode_plan_registers plan pdu ≡ some result
    → apply_to_caches plan pdu caches ≡ apply_values fill_registers plan.covered caches result
unfolding apply_to_caches
apply_registers plan pdu caches result kind decoded = rw (kind, decoded) refl

apply_registers_done :
    (covered : List CoveredTarget) (caches : List TargetCache) (values : List ℕ)
    (after : List TargetCache)
    → fill_covered (fill_registers values) covered caches ≡ some after
    → apply_values fill_registers covered caches (success values) ≡ some (filled after)
unfolding apply_values
apply_registers_done covered caches values after run = rw run refl

apply_bits :
    (plan : ReadRequestPlan) (pdu : List ℕ) (caches : List TargetCache)
    (result : PduDecodeResult (List Bool))
    → is_bit_register_type plan.register_type ≡ true
    → decode_plan_bits plan pdu ≡ some result
    → apply_to_caches plan pdu caches ≡ apply_values fill_bits plan.covered caches result
unfolding apply_to_caches
apply_bits plan pdu caches result kind decoded = rw (kind, decoded) refl

apply_bits_done :
    (covered : List CoveredTarget) (caches : List TargetCache) (values : List Bool)
    (after : List TargetCache)
    → fill_covered (fill_bits values) covered caches ≡ some after
    → apply_values fill_bits covered caches (success values) ≡ some (filled after)
unfolding apply_values
apply_bits_done covered caches values after run = rw run refl

-- A response that decodes to as many values as its plan asked for, of the plan's kind.
pub data IsFullResponse (plan : ReadRequestPlan) (pdu : List ℕ) : Type 0 where
  full_registers :
      (values : List ℕ)
      → is_bit_register_type plan.register_type ≡ false
      → decode_plan_registers plan pdu ≡ some (success values)
      → length values ≡ plan.quantity
      → IsFullResponse plan pdu
  full_bits :
      (values : List Bool)
      → is_bit_register_type plan.register_type ≡ true
      → decode_plan_bits plan pdu ≡ some (success values)
      → length values ≡ plan.quantity
      → IsFullResponse plan pdu

-- A response that decodes to as many registers, coils or discrete inputs as its plan asked for is
-- applied without an access outside a list, and leaves every target a cache with as many values as
-- the target has, if that was so before and the slices of the plan lie within the plan and their
-- targets.
pub apply_to_caches-HasRoom :
    (targets : List PollTarget) (plan : ReadRequestPlan) (pdu : List ℕ) (caches : List TargetCache)
    → IsFullResponse plan pdu
    → All (IsSlice targets plan) plan.covered
    → HasRoom targets caches
    → (after : List TargetCache) × (apply_to_caches plan pdu caches ≡ some (filled after))
      × HasRoom targets after
apply_to_caches-HasRoom targets plan pdu caches (full_registers values kind decoded size) hs h =
    let (after, run, kept) =
      fill_covered-HasRoom targets plan (fill_registers values) plan.covered caches
        (λ c cache hv hc.
          fill_registers-room values c cache (omega (arith, size, hv))
            (subst (λ b. c.offset_in_target + c.count ≤ room b cache) kind hc))
        hs h in
    (
      after,
      apply_registers plan pdu caches (success values) kind decoded
          ∙ apply_registers_done plan.covered caches values after run,
      kept,
    )
apply_to_caches-HasRoom targets plan pdu caches (full_bits values kind decoded size) hs h =
    let (after, run, kept) =
      fill_covered-HasRoom targets plan (fill_bits values) plan.covered caches
        (λ c cache hv hc.
          fill_bits-room values c cache (omega (arith, size, hv))
            (subst (λ b. c.offset_in_target + c.count ≤ room b cache) kind hc))
        hs h in
    (
      after,
      apply_bits plan pdu caches (success values) kind decoded
          ∙ apply_bits_done plan.covered caches values after run,
      kept,
    )

>>=-none {ℓ κ} :
    {A : Type ℓ} {B : Type κ} (m : Option A) (f : A → Option B)
    → ((a : A) → f a ≡ none)
    → (m >>= f) ≡ none
>>=-none none f h = refl
>>=-none (some a) f h = h a

copy_values-short {ℓ} :
    {A : Type ℓ} (n in_target in_plan : ℕ) (values destination : List A)
    → length values < in_plan + n
    → in_plan ≤ length values
    → copy_values n in_target in_plan values destination ≡ none
unfolding copy_values
copy_values-short zero in_target in_plan values destination h l = absurd (omega arith)
copy_values-short (suc n) in_target in_plan values destination h l =
    elim (ℕ_discrete in_plan (length values)) [
      | yes last ↦ rw (get_elem?_above values in_plan (omega (arith, last))) refl
      | no more ↦ >>=-none (get_elem? values in_plan) _ (λ v.
          >>=-none (set_checked destination in_target v) _ (λ written.
            copy_values-short n (in_target + 1) (in_plan + 1) values written (omega arith)
              (omega (arith, more))))
    ]

fill_covered_short :
    (caches : List TargetCache) (values : List ℕ) (c : CoveredTarget) (covered : List CoveredTarget)
    → c.offset_in_plan ≤ length values
    → length values < c.offset_in_plan + c.count
    → fill_covered (fill_registers values) (c ∷ covered) caches ≡ none
unfolding fill_covered fill_registers
fill_covered_short caches values c covered low high =
    >>=-none (get_elem? caches c.target_index) _ (λ cache.
      rw
        (copy_values-short c.count c.offset_in_target c.offset_in_plan values cache.register_values
          high low)
        refl)

-- A response that decodes, but to fewer values than reach the end of the plan's first slice, is
-- applied outside its list: the decoder does not compare the number of registers with the request.
pub apply_to_caches_short :
    (plan : ReadRequestPlan) (pdu : List ℕ) (caches : List TargetCache) (values : List ℕ)
    (c : CoveredTarget) (covered : List CoveredTarget)
    → is_bit_register_type plan.register_type ≡ false
    → plan.covered ≡ c ∷ covered
    → decode_plan_registers plan pdu ≡ some (success values)
    → c.offset_in_plan ≤ length values
    → length values < c.offset_in_plan + c.count
    → apply_to_caches plan pdu caches ≡ none
unfolding apply_values
apply_to_caches_short plan pdu caches values c covered kind first decoded low high =
    apply_registers plan pdu caches (success values) kind decoded
    ∙ rw (first, fill_covered_short caches values c covered low high) refl
