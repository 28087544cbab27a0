-- ===== src/Poll/Caches.antt =====
-- The caches of core/poll/PollEngine.cpp, and `applyPlanResponse`. A `none` is a read or a write
-- outside a QList, which Qt leaves undefined.
use modbus_viewer.Prelude.{
  ℕ, zero, suc, ◌+◌, Bool, true, false, List, [], ◌∷◌, Option, none, some, ◌>>=◌, ltb,
  if◌then◌else◌, length, get_elem?, set, replicate,
}
use modbus_viewer.Model.{
  is_bit_register_type, coil, discrete_input, holding_register, input_register,
}
use modbus_viewer.Pdu.Exceptions.{Message}
use modbus_viewer.Pdu.Responses.{
  PduDecodeResult, success, malformed, exception_response, decode_read_coils_response,
  decode_read_discrete_inputs_response, decode_read_holding_registers_response,
  decode_read_input_registers_response,
}
use modbus_viewer.Coalesce.{PollTarget, CoveredTarget, ReadRequestPlan}

pub record TargetCache : Type 0 where
  pub register_values : List ℕ
  pub bit_values : List Bool
  pub dirty : Bool

-- A default cache, resized for the target.
unfoldable pub new_cache : PollTarget → TargetCache
new_cache t =
    if is_bit_register_type t.register_type
    then record { register_values = []; bit_values = replicate t.quantity false; dirty = false }
    else record { register_values = replicate t.quantity 0; bit_values = []; dirty = false }

unfoldable pub set_checked {ℓ} : {A : Type ℓ} → List A → ℕ → A → Option (List A)
set_checked xs i v = if ltb i (length xs) then some (set xs i v) else none

-- The rounds of `destination[offsetInTarget + i] = values.at(offsetInPlan + i)`, from one `i` on.
unfoldable pub copy_values {ℓ} : {A : Type ℓ} → ℕ → ℕ → ℕ → List A → List A → Option (List A)
copy_values zero in_target in_plan values destination = some destination
copy_values (suc rounds) in_target in_plan values destination = do
  value ← get_elem? values in_plan
  written ← set_checked destination in_target value
  copy_values rounds (in_target + 1) (in_plan + 1) values written

unfoldable pub fill_registers : List ℕ → CoveredTarget → TargetCache → Option TargetCache
fill_registers values c cache = do
  filled ← copy_values c.count c.offset_in_target c.offset_in_plan values cache.register_values
  some (record cache { register_values = filled; dirty = true })

unfoldable pub fill_bits : List Bool → CoveredTarget → TargetCache → Option TargetCache
fill_bits values c cache = do
  filled ← copy_values c.count c.offset_in_target c.offset_in_plan values cache.bit_values
  some (record cache { bit_values = filled; dirty = true })

-- The loop over the covered targets.
unfoldable pub fill_covered :
    (CoveredTarget → TargetCache → Option TargetCache)
    → List CoveredTarget
    → List TargetCache
    → Option (List TargetCache)
fill_covered fill [] caches = some caches
fill_covered fill (c ∷ covered) caches = do
  cache ← get_elem? caches c.target_index
  filled ← fill c cache
  written ← set_checked caches c.target_index filled
  fill_covered fill covered written

-- What a response does to the caches, or the message with which the plan's targets fail.
pub data Applied : Type 0 where
  filled : List TargetCache → Applied
  refused : Message → Applied

unfoldable pub apply_values {ℓ} :
    {A : Type ℓ}
    → (List A → CoveredTarget → TargetCache → Option TargetCache)
    → List CoveredTarget
    → List TargetCache
    → PduDecodeResult (List A)
    → Option Applied
apply_values fill covered caches (success values) = do
  written ← fill_covered (fill values) covered caches
  some (filled written)
apply_values fill covered caches (malformed message) = some (refused message)
apply_values fill covered caches (exception_response response) = some (refused response.message)

unfoldable pub decode_plan_bits : ReadRequestPlan → List ℕ → Option (PduDecodeResult (List Bool))
decode_plan_bits plan pdu = elim plan.register_type [
  | coil ↦ decode_read_coils_response pdu plan.quantity
  | discrete_input ↦ decode_read_discrete_inputs_response pdu plan.quantity
  | holding_register ↦ decode_read_discrete_inputs_response pdu plan.quantity
  | input_register ↦ decode_read_discrete_inputs_response pdu plan.quantity
]

unfoldable pub decode_plan_registers : ReadRequestPlan → List ℕ → Option (PduDecodeResult (List ℕ))
decode_plan_registers plan pdu = elim plan.register_type [
  | holding_register ↦ decode_read_holding_registers_response pdu
  | coil ↦ decode_read_input_registers_response pdu
  | discrete_input ↦ decode_read_input_registers_response pdu
  | input_register ↦ decode_read_input_registers_response pdu
]

unfoldable pub apply_to_caches : ReadRequestPlan → List ℕ → List TargetCache → Option Applied
apply_to_caches plan pdu caches =
    if is_bit_register_type plan.register_type
    then (decode_plan_bits plan pdu >>= apply_values fill_bits plan.covered caches)
    else (decode_plan_registers plan pdu >>= apply_values fill_registers plan.covered caches)
