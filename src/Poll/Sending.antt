-- ===== src/Poll/Sending.antt =====
-- The body of the loop of `pumpRequests` of core/poll/PollEngine.cpp: the request that it sends.
use modbus_viewer.Prelude.{
  ℕ, ◌+◌, ◌*◌, ◌%◌, ◌^◌, ◌≡◌, refl, ap, ◌∙◌, List, [], ◌∷◌, ◌++◌, some, arith, get_elem?,
}
use modbus_viewer.Prelude.Bits.{bit_or_shifted}
use modbus_viewer.Bytes.{u16_bytes, append_u16}
use modbus_viewer.Model.{
  RegisterType, read_function_code_for, coil, discrete_input, holding_register, input_register,
}
use modbus_viewer.Pdu.Requests.{encode_read_request}
use modbus_viewer.Coalesce.{ReadRequestPlan}
use modbus_viewer.Transaction.{
  PendingRequest, Manager, Wire, mark_attempt, rearm_timeout_timer, new_request, enqueue, transmit,
  send_request,
}
use modbus_viewer.Poll.Engine.{PollEngine, make_correlation_id, send_plan}

-- A transport and signal slots that call neither the manager nor the engine.
unfoldable pub LeavesEngine : {V : Type 0} → Wire (PollEngine × V) → Type 0
LeavesEngine {V} wire =
    ((frame : List ℕ) (s : Manager × (PollEngine × V)) → (wire.write frame s).0 ≡ s.0)
    × ((frame : List ℕ) (s : Manager × (PollEngine × V)) → (wire.write frame s).1.0 ≡ s.1.0)
    × ((frame : List ℕ) (w : PollEngine × V) → (wire.frame_sent frame w).0 ≡ w.0)

-- The function codes of the protocol's four reads.
abbrev read_code : RegisterType → ℕ
read_code coil = 1
read_code discrete_input = 2
read_code holding_register = 3
read_code input_register = 4

-- The request that asks for the values of the plan at an index: its device, the bytes that ask, and
-- the correlation id with the generation in the upper half.
pub record IsRequestOf (plans : List ReadRequestPlan) (generation i : ℕ) (r : PendingRequest)
    : Type 0 where
  pub plan : ReadRequestPlan
  pub found : get_elem? plans i ≡ some plan
  pub same_unit : r.unit_id ≡ plan.unit_id
  pub asked :
      r.request_pdu
      ≡ read_code plan.register_type ∷ (u16_bytes plan.start_address ++ u16_bytes plan.quantity)
  pub own_id : r.correlation_id ≡ generation * 2 ^ 32 + i % 2 ^ 32

-- The requests of the plans from an index on, in their order.
unfoldable pub AreRequestsFrom : List ReadRequestPlan → ℕ → ℕ → List PendingRequest → Type 0
AreRequestsFrom plans generation i [] = Unit
AreRequestsFrom plans generation i (r ∷ rs) =
    IsRequestOf plans generation i r × AreRequestsFrom plans generation (i + 1) rs

encode_read-asked :
    (type : RegisterType) (start quantity : ℕ)
    → encode_read_request (read_function_code_for type) start quantity
      ≡ read_code type ∷ (u16_bytes start ++ u16_bytes quantity)
unfolding encode_read_request read_function_code_for append_u16
encode_read-asked coil start quantity = refl
encode_read-asked discrete_input start quantity = refl
encode_read-asked holding_register start quantity = refl
encode_read-asked input_register start quantity = refl

make_correlation_id_value :
    (e : PollEngine) (i : ℕ) → make_correlation_id e i ≡ e.generation * 2 ^ 32 + i % 2 ^ 32
unfolding make_correlation_id
make_correlation_id_value e i = bit_or_shifted 32 e.generation (i % 2 ^ 32) (omega arith)

module _ {V : Type 0} (wire : Wire (PollEngine × V)) (leaves : LeavesEngine wire) where
  send_request-leaves :
      (now unit_id : ℕ) (pdu : List ℕ) (id : ℕ) (m : Manager) (w : PollEngine × V)
      → let r = new_request now unit_id pdu id m in
        let s = send_request wire now unit_id pdu id (m, w) in
        (s.0 ≡ enqueue now r m) × (s.1.0 ≡ w.0)
  unfolding send_request transmit LeavesEngine
  send_request-leaves now unit_id pdu id m w = (leaves.0 _ _, leaves.1 _ _ ∙ leaves.2 _ w)

  enqueue-pending :
      (now : ℕ) (r : PendingRequest) (m : Manager)
      → (enqueue now r m).pending ≡ m.pending ++ (r ∷ [])
  unfolding enqueue rearm_timeout_timer
  enqueue-pending now r m = ground arith

  pub send_plan-engine :
      (now : ℕ) (plan : ReadRequestPlan) (m : Manager) (e : PollEngine) (v : V)
      → (send_plan wire now plan (m, (e, v))).1.0 ≡ record e {
        next_plan_index = e.next_plan_index + 1;
        requests_outstanding = e.requests_outstanding + 1;
      }
  unfolding send_plan
  send_plan-engine now plan m e v =
      let counted = record e { requests_outstanding = e.requests_outstanding + 1 } in
      ap {A = PollEngine} (λ x. record x { next_plan_index = x.next_plan_index + 1 })
        (send_request-leaves now _ _ _ m (counted, v)).1

  -- The request that the body of the loop puts behind the others.
  pub send_plan-pending :
      (now : ℕ) (plan : ReadRequestPlan) (m : Manager) (e : PollEngine) (v : V)
      → get_elem? e.plans e.next_plan_index ≡ some plan
      → (r : PendingRequest) × ((send_plan wire now plan (m, (e, v))).0.pending
          ≡ m.pending ++ (r ∷ []))
        × IsRequestOf e.plans e.generation e.next_plan_index r
  unfolding send_plan new_request mark_attempt
  send_plan-pending now plan m e v found =
      let counted = record e { requests_outstanding = e.requests_outstanding + 1 } in
      let pdu =
        encode_read_request (read_function_code_for plan.register_type) plan.start_address
          plan.quantity in
      let id = make_correlation_id e e.next_plan_index in
      let r = new_request now plan.unit_id pdu id m in
      (
        r,
        ap (λ (x : Manager). x.pending)
              (send_request-leaves now plan.unit_id pdu id m (counted, v)).0
            ∙ enqueue-pending now r m,
        record {
          plan = plan;
          found = found;
          same_unit = refl;
          asked = encode_read-asked plan.register_type plan.start_address plan.quantity;
          own_id = make_correlation_id_value e e.next_plan_index;
        },
      )
