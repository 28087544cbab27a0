-- ===== src/Poll/Engine.antt =====
-- The cycle of core/poll/PollEngine.cpp: plans are sent with a window of requests in flight, and
-- responses and failures settle them. A `none` is a loop without end or an access outside a QList.
use modbus_viewer.Prelude.{
  ℕ, zero, suc, ◌+◌, ◌-◌, ◌*◌, ◌/◌, ◌%◌, ◌^◌, max, bit_and, bit_or, Bool, true, false, ◌&&◌, ◌||◌,
  not, List, Option, none, some, ◌>>=◌, ◌==◌, ltb, if◌then◌else◌, length, get_elem?, map,
}
use modbus_viewer.Model.{read_function_code_for}
use modbus_viewer.Pdu.Exceptions.{Message}
use modbus_viewer.Pdu.Requests.{encode_read_request}
use modbus_viewer.Coalesce.{PollTarget, ReadRequestPlan, CoalescingOptions, coalesce}
use modbus_viewer.Transaction.{Manager, Wire, send_request, cancel_all, supports_pipelining}
use modbus_viewer.Poll.Caches.{TargetCache, new_cache}

pub record PollEngine : Type 0 where
  pub interval_timer : Option ℕ
  pub flush_timer : Option ℕ
  pub targets : List PollTarget
  pub plans : List ReadRequestPlan
  pub caches : List TargetCache
  pub coalescing_options : CoalescingOptions
  pub interval_ms : ℕ
  pub max_in_flight : ℕ
  pub running : Bool
  pub generation : ℕ
  pub next_plan_index : ℕ
  pub requests_outstanding : ℕ

-- The slots on the engine's signals, with a state `V`. They do not call back.
pub record Observer (V : Type 0) : Type 0 where
  pub target_registers_updated : ℕ → ℕ → List ℕ → V → V
  pub target_bits_updated : ℕ → ℕ → List Bool → V → V
  pub poll_failed : Message → V → V
  pub target_failed : ℕ → Message → V → V
  pub poll_cycle_completed : V → V

abbrev pub flush_interval_ms : ℕ
flush_interval_ms = 16

abbrev pub is_active : Option ℕ → Bool
is_active none = false
is_active (some t) = true

unfoldable pub rebuild_plans : PollEngine → Option PollEngine
rebuild_plans e = do
  plans ← coalesce e.targets e.coalescing_options
  some (record e { plans = plans })

unfoldable pub set_coalescing_options : CoalescingOptions → PollEngine → Option PollEngine
set_coalescing_options options e = rebuild_plans (record e { coalescing_options = options })

unfoldable pub set_interval_ms : ℕ → ℕ → PollEngine → PollEngine
set_interval_ms now interval_ms e =
    if e.interval_ms == interval_ms
    then e
    else if e.running && is_active e.interval_timer
    then record e { interval_ms = interval_ms; interval_timer = some (now + interval_ms) }
    else record e { interval_ms = interval_ms }

unfoldable pub set_max_in_flight : ℕ → PollEngine → PollEngine
set_max_in_flight max_in_flight e = record e { max_in_flight = max 1 max_in_flight }

unfoldable pub effective_window_size : Manager → PollEngine → ℕ
effective_window_size m e = if supports_pipelining m then e.max_in_flight else 1

abbrev pub plan_count : PollEngine → ℕ
plan_count e = length e.plans

-- The generation is a quint32 in the upper half of a quint64.
unfoldable pub make_correlation_id : PollEngine → ℕ → ℕ
make_correlation_id e plan_index = bit_or (e.generation * 2 ^ 32) (plan_index % 2 ^ 32)

unfoldable pub is_current_generation : PollEngine → ℕ → Bool
is_current_generation e correlation_id = correlation_id / 2 ^ 32 % 2 ^ 32 == e.generation

unfoldable pub plan_index_of : ℕ → ℕ
plan_index_of correlation_id = bit_and correlation_id 0xffffffff

unfoldable pub may_pump : ℕ → PollEngine → Bool
may_pump window e =
    e.running && ltb e.next_plan_index (length e.plans) && ltb e.requests_outstanding window

unfoldable pub stop : {V : Type 0} → Manager × (PollEngine × V) → Manager × (PollEngine × V)
stop (m, (e, v)) = (
  cancel_all m,
  (
    record e {
      running = false;
      interval_timer = none;
      flush_timer = none;
      requests_outstanding = 0;
    },
    v,
  ),
)

module _ {V : Type 0} (wire : Wire (PollEngine × V)) where
  -- The body of the loop, for the plan at the index. The index moves on after the request is sent.
  unfoldable pub send_plan :
      ℕ → ReadRequestPlan → Manager × (PollEngine × V) → Manager × (PollEngine × V)
  send_plan now plan (m, (e, v)) =
      let pdu =
        encode_read_request (read_function_code_for plan.register_type) plan.start_address
          plan.quantity in
      let counted = record e { requests_outstanding = e.requests_outstanding + 1 } in
      let (m', (e', v')) =
        send_request wire now plan.unit_id pdu (make_correlation_id e e.next_plan_index)
          (m, (counted, v)) in
      (m', (record e' { next_plan_index = e'.next_plan_index + 1 }, v'))

  -- The `while` loop, on fuel.
  unfoldable pub pump_loop :
      ℕ → ℕ → ℕ → Manager × (PollEngine × V) → Option (Manager × (PollEngine × V))
  pump_loop zero window now s = if may_pump window s.1.0 then none else some s
  pump_loop (suc fuel) window now s = elim (may_pump window s.1.0) [
    | false ↦ some s
    | true ↦ elim (get_elem? s.1.0.plans s.1.0.next_plan_index) [
      | none ↦ none
      | some plan ↦ pump_loop fuel window now (send_plan now plan s)
    ]
  ]

  -- Each round moves on by one plan.
  unfoldable pub pump_requests :
      ℕ → Manager × (PollEngine × V) → Option (Manager × (PollEngine × V))
  pump_requests now (m, (e, v)) =
      pump_loop (length e.plans - e.next_plan_index) (effective_window_size m e) now (m, (e, v))

  unfoldable pub begin_cycle : ℕ → Manager × (PollEngine × V) → Option (Manager × (PollEngine × V))
  begin_cycle now (m, (e, v)) =
      if not e.running || length e.plans == 0
      then some (m, (e, v))
      else pump_requests now (m, (record e { next_plan_index = 0; requests_outstanding = 0 }, v))

  -- The slot on the interval timer, which is single-shot and so no longer active when it fires.
  unfoldable pub handle_interval_timer :
      ℕ → Manager × (PollEngine × V) → Option (Manager × (PollEngine × V))
  handle_interval_timer now (m, (e, v)) =
      begin_cycle now (m, (record e { interval_timer = none }, v))

  unfoldable pub start : ℕ → Manager × (PollEngine × V) → Option (Manager × (PollEngine × V))
  start now (m, (e, v)) =
      if e.running then some (m, (e, v)) else begin_cycle now (m, (record e { running = true }, v))

  unfoldable pub set_targets :
      ℕ → List PollTarget → Manager × (PollEngine × V) → Option (Manager × (PollEngine × V))
  set_targets now targets (m, (e, v)) = do
    rebuilt ← rebuild_plans (record e {
      targets = targets;
      generation = (e.generation + 1) % 2 ^ 32;
      interval_timer = none;
    })
    let ready = record rebuilt { caches = map new_cache targets } in
        if ready.running
        then begin_cycle now (cancel_all m, (ready, v))
        else some (cancel_all m, (ready, v))
