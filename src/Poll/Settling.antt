-- ===== src/Poll/Settling.antt =====
-- How core/poll/PollEngine.cpp settles responses and failures, and flushes what they changed.
use modbus_viewer.Prelude.{
  ℕ, ◌+◌, ◌-◌, false, ◌&&◌, ◌||◌, not, List, [], ◌∷◌, Option, none, some, ◌>>=◌, ◌==◌, leb,
  if◌then◌else◌, length, get_elem?,
}
use modbus_viewer.Model.{is_bit_register_type}
use modbus_viewer.Pdu.Exceptions.{Message}
use modbus_viewer.Coalesce.{PollTarget, CoveredTarget, ReadRequestPlan}
use modbus_viewer.Transaction.{Manager, Wire}
use modbus_viewer.Poll.Caches.{TargetCache, Applied, filled, refused, apply_to_caches}
use modbus_viewer.Poll.Engine.{
  PollEngine, Observer, is_active, flush_interval_ms, is_current_generation, plan_index_of,
  pump_requests,
}

module _ {V : Type 0} (observer : Observer V) where
  unfoldable pub finish_cycle : ℕ → Manager × (PollEngine × V) → Manager × (PollEngine × V)
  finish_cycle now (m, (e, v)) =
      if leb (length e.plans) e.next_plan_index && (e.requests_outstanding == 0)
      then (
        m,
        (
          if e.running then record e { interval_timer = some (now + e.interval_ms) } else e,
          observer.poll_cycle_completed v,
        ),
      )
      else (m, (e, v))

  unfoldable pub fail_targets : Message → List CoveredTarget → V → V
  fail_targets reason [] v = v
  fail_targets reason (c ∷ covered) v =
      fail_targets reason covered (observer.target_failed c.target_index reason v)

  -- `markDirty` arms the flush timer unless it is active.
  unfoldable pub arm_flush : ℕ → List CoveredTarget → PollEngine → PollEngine
  arm_flush now [] e = e
  arm_flush now (c ∷ covered) e =
      if is_active e.flush_timer
      then e
      else record e { flush_timer = some (now + flush_interval_ms) }

  unfoldable pub take_applied : ℕ → ReadRequestPlan → Applied → PollEngine × V → PollEngine × V
  take_applied now plan (filled caches) (e, v) =
      (arm_flush now plan.covered (record e { caches = caches }), v)
  take_applied now plan (refused message) (e, v) =
      (e, fail_targets message plan.covered (observer.poll_failed message v))

  unfoldable pub apply_plan_response :
      ℕ → ReadRequestPlan → List ℕ → PollEngine × V → Option (PollEngine × V)
  apply_plan_response now plan pdu (e, v) = do
    applied ← apply_to_caches plan pdu e.caches
    some (take_applied now plan applied (e, v))

  unfoldable pub apply_at :
      ℕ → Option ReadRequestPlan → List ℕ → PollEngine × V → Option (PollEngine × V)
  apply_at now none pdu s = some s
  apply_at now (some plan) pdu s = apply_plan_response now plan pdu s

  unfoldable pub fail_at : Message → Option ReadRequestPlan → V → V
  fail_at reason none v = v
  fail_at reason (some plan) v = fail_targets reason plan.covered v

  unfoldable pub flush_one : ℕ → PollTarget → TargetCache → V → V
  flush_one i t cache v =
      if is_bit_register_type t.register_type
      then observer.target_bits_updated i t.start_address cache.bit_values v
      else observer.target_registers_updated i t.start_address cache.register_values v

  -- The caches from index `i` on, with the targets of the same indices.
  unfoldable pub flush_from :
      ℕ → List PollTarget → List TargetCache → V → Option (List TargetCache × V)
  flush_from i ts [] v = some ([], v)
  flush_from i [] (cache ∷ caches) v =
      let rest : Option (List TargetCache × V) = (do
        (flushed, v') ← flush_from (i + 1) [] caches v
        some (cache ∷ flushed, v')) in
      if cache.dirty then none else rest
  flush_from i (t ∷ ts) (cache ∷ caches) v = do
    (flushed, v') ← flush_from (i + 1) ts caches (if cache.dirty then flush_one i t cache v else v)
    some (record cache { dirty = false } ∷ flushed, v')

  -- Called when the single-shot timer fires, which is then no longer active.
  unfoldable pub flush_pending_updates : PollEngine × V → Option (PollEngine × V)
  flush_pending_updates (e, v) = do
    (flushed, v') ← flush_from 0 e.targets e.caches v
    some (record e { caches = flushed; flush_timer = none }, v')

module _ {V : Type 0} (wire : Wire (PollEngine × V)) (observer : Observer V) where
  unfoldable pub note_request_settled :
      ℕ → Manager × (PollEngine × V) → Option (Manager × (PollEngine × V))
  note_request_settled now (m, (e, v)) = do
    pumped ←
        pump_requests wire now
          (m, (record e { requests_outstanding = e.requests_outstanding - 1 }, v))
    some (finish_cycle observer now pumped)

  unfoldable pub handle_response :
      ℕ → ℕ → List ℕ → Manager × (PollEngine × V) → Option (Manager × (PollEngine × V))
  handle_response now correlation_id pdu (m, (e, v)) =
      let settled : Option (Manager × (PollEngine × V)) = (do
        (e', v') ←
            apply_at observer now (get_elem? e.plans (plan_index_of correlation_id)) pdu (e, v)
        note_request_settled now (m, (e', v'))) in
      if not e.running || not (is_current_generation e correlation_id)
      then some (m, (e, v))
      else settled

  unfoldable pub handle_failure :
      ℕ → ℕ → Message → Manager × (PollEngine × V) → Option (Manager × (PollEngine × V))
  handle_failure now correlation_id reason (m, (e, v)) =
      let told =
        fail_at observer reason (get_elem? e.plans (plan_index_of correlation_id))
          (observer.poll_failed reason v) in
      if not e.running || not (is_current_generation e correlation_id)
      then some (m, (e, v))
      else note_request_settled now (m, (e, told))
