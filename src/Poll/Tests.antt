-- ===== src/Poll/Tests.antt =====
-- The theorems about the poll engine, applied to an engine with two holding registers.
use modbus_viewer.Prelude.{ℕ, ◌+◌, ◌≡◌, refl, true, false, List, [], ◌∷◌, map, none, some, arith}
use modbus_viewer.Model.{holding_register, is_bit_register_type}
use modbus_viewer.Bytes.{read_u16}
use modbus_viewer.Pdu.Exceptions.{is_exception_function_code}
use modbus_viewer.Pdu.Responses.{
  success, check_response_header, decode_checked, read_registers, register_values,
  counted_registers, register_body, decode_read_registers_response,
  decode_read_holding_registers_response,
}
use modbus_viewer.Coalesce.{PollTarget, CoveredTarget, ReadRequestPlan, default_coalescing_options}
use modbus_viewer.Coalesce.Slices.{IsSlice}
use modbus_viewer.Transaction.{Manager, Wire, tcp, cancel_all}
use modbus_viewer.Poll.Caches.{
  TargetCache, new_cache, apply_to_caches, decode_plan_registers, filled,
}
use modbus_viewer.Poll.Room.{HasRoom, new_caches-HasRoom}
use modbus_viewer.Poll.Applying.{full_registers, apply_to_caches-HasRoom, apply_to_caches_short}
use modbus_viewer.Poll.Engine.{PollEngine, Observer, pump_requests, effective_window_size}
use modbus_viewer.Poll.Sending.{LeavesEngine}
use modbus_viewer.Poll.Window.{Pumped, pump_requests-Pumped}

abbrev pair : List PollTarget
pair =
    record { unit_id = 1; register_type = holding_register; start_address = 10; quantity = 2 } ∷ []

abbrev pair_slice : CoveredTarget
pair_slice = record { target_index = 0; offset_in_plan = 0; offset_in_target = 0; count = 2 }

abbrev pair_plan : ReadRequestPlan
pair_plan = record {
  unit_id = 1;
  register_type = holding_register;
  start_address = 10;
  quantity = 2;
  covered = pair_slice ∷ [];
}

abbrev engine : ℕ → PollEngine
engine generation = record {
  interval_timer = none;
  flush_timer = none;
  targets = pair;
  plans = pair_plan ∷ pair_plan ∷ pair_plan ∷ [];
  caches = map new_cache pair;
  coalescing_options = default_coalescing_options;
  interval_ms = 1000;
  max_in_flight = 2;
  running = true;
  generation = generation;
  next_plan_index = 0;
  requests_outstanding = 0;
}

abbrev idle_manager : Manager
idle_manager = record {
  transport = some (record { identity = 1; pipelining = true });
  framing_mode = tcp;
  timer = none;
  timeout_ms = 1000;
  retry_count = 0;
  next_transaction_id = 0;
  pending = [];
  receive_buffer = [];
}

abbrev quiet_wire : Wire (PollEngine × ℕ)
quiet_wire = record {
  frame_sent = λ bytes w. w;
  frame_received = λ bytes w. w;
  write = λ bytes s. s;
}

-- Counts the signals.
abbrev counting : Observer ℕ
counting = record {
  target_registers_updated = λ i start values v. v + 1;
  target_bits_updated = λ i start values v. v + 1;
  poll_failed = λ reason v. v + 1;
  target_failed = λ i reason v. v + 1;
  poll_cycle_completed = λ v. v + 1;
}

LeavesEngine-quiet : LeavesEngine quiet_wire
unfolding LeavesEngine
LeavesEngine-quiet = (λ frame s. refl, λ frame s. refl, λ frame w. refl)

pump_requests-Pumped_example :
    (ended : Manager × (PollEngine × ℕ)) × (pump_requests quiet_wire 5 (idle_manager, (engine 4, 0))
      ≡ some ended)
    × Pumped
        (effective_window_size idle_manager (engine 4))
        (idle_manager, engine 4)
        (ended.0, ended.1.0)
pump_requests-Pumped_example =
    pump_requests-Pumped quiet_wire LeavesEngine-quiet 5 idle_manager (engine 4) 0

-- An engine that is told to poll nothing.
abbrev retargeted : Manager × (PollEngine × ℕ)
retargeted = (
  cancel_all idle_manager,
  (record (engine 4) { targets = []; plans = []; caches = []; generation = 5 }, 0),
)

pair_is_registers : is_bit_register_type holding_register ≡ false
unfolding is_bit_register_type
pair_is_registers = refl

pair_slice-IsSlice : IsSlice pair pair_plan pair_slice
pair_slice-IsSlice = record {
  target = record {
    unit_id = 1;
    register_type = holding_register;
    start_address = 10;
    quantity = 2;
  };
  found = refl;
  same_unit = refl;
  same_type = refl;
  nonempty = omega arith;
  in_plan = omega arith;
  in_target = omega arith;
  aligned = refl;
}

full_response :
    decode_plan_registers pair_plan (3 ∷ 4 ∷ 0 ∷ 7 ∷ 1 ∷ 9 ∷ []) ≡ some (success (7 ∷ 265 ∷ []))
unfolding decode_plan_registers decode_read_holding_registers_response
    decode_read_registers_response decode_checked check_response_header is_exception_function_code
    register_body counted_registers register_values read_registers read_u16
full_response = refl

short_response : decode_plan_registers pair_plan (3 ∷ 2 ∷ 0 ∷ 7 ∷ []) ≡ some (success (7 ∷ []))
unfolding decode_plan_registers decode_read_holding_registers_response
    decode_read_registers_response decode_checked check_response_header is_exception_function_code
    register_body counted_registers register_values read_registers read_u16
short_response = refl

apply_to_caches-HasRoom_example :
    (after : List TargetCache) × (apply_to_caches pair_plan
        (3 ∷ 4 ∷ 0 ∷ 7 ∷ 1 ∷ 9 ∷ [])
        (map new_cache pair)
      ≡ some (filled after))
    × HasRoom pair after
apply_to_caches-HasRoom_example =
    apply_to_caches-HasRoom pair pair_plan (3 ∷ 4 ∷ 0 ∷ 7 ∷ 1 ∷ 9 ∷ []) (map new_cache pair)
      (full_registers (7 ∷ 265 ∷ []) pair_is_registers full_response refl) (pair_slice-IsSlice, _)
      (new_caches-HasRoom pair)

apply_to_caches_short_example :
    apply_to_caches pair_plan (3 ∷ 2 ∷ 0 ∷ 7 ∷ []) (map new_cache pair) ≡ none
apply_to_caches_short_example =
    apply_to_caches_short pair_plan (3 ∷ 2 ∷ 0 ∷ 7 ∷ []) (map new_cache pair) (7 ∷ []) pair_slice []
      pair_is_registers refl short_response (omega arith) (omega arith)
