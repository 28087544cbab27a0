-- ===== src/Controller/Answers.antt =====
-- The slots of app-lib/ConnectionController.cpp and core/poll/PollEngine.cpp on responses and failures,
-- as the client of the transaction manager, and the state of the connection.
use modbus_viewer.Prelude.{
  ℕ, ◌+◌, ◌≡◌, subst, true, false, not, ◌||◌, ◌&&◌, List, Option, none, some, ◌>>=◌, >>=-eq-some,
  ◌==◌, leb, if◌then◌else◌, length, refl,
}
use mathlib.Core.Option.{some-injective}
use modbus_viewer.Pdu.Exceptions.{Message}
use modbus_viewer.Pdu.Responses.{PduDecodeResult}
use modbus_viewer.Transaction.{Client}
use modbus_viewer.Transaction.Keeping.{IsKept}
use modbus_viewer.Poll.Engine.{PollEngine, is_current_generation, pump_requests}
use modbus_viewer.Poll.Settling.{
  finish_cycle, note_request_settled, handle_response, handle_failure,
}
use modbus_viewer.Format.Settings.{Numerics}
use modbus_viewer.Controller.State.{
  PendingOperation, no_operation, read_holding_registers, read_input_registers, read_coils,
  read_discrete_inputs, write_single_register, write_single_coil, Controller, Session, Signal, emit,
  operation_failed, with_controller,
}
use modbus_viewer.Controller.Polling.{controller_wire, controller_observer}
use modbus_viewer.Controller.Requests.{
  answer, handle_response_received, handle_request_failed, on_response, on_failure,
}
use modbus_viewer.Controller.Upkeep.{IsUp, pump_loop-IsUp}
use modbus_viewer.Controller.Arrivals.{branch_kept, fail_at-IsUp, apply_at-IsUp, poll_failed-IsUp}

module _ {R : Type 0} where
  told-IsUp :
      {A : Type 0} (o : Option A) (f : A → Signal) (c t : Controller R)
      → (o >>= λ a. some (emit (f a) c)) ≡ some t
      → IsUp c
      → IsUp t
  unfolding emit
  told-IsUp none f c t q h = cc
  told-IsUp (some a) f c t q h = subst IsUp (some-injective _ _ q) h

  answer_as-IsUp :
      (operation : PendingOperation) (pdu : List ℕ) (c t : Controller R)
      → answer pdu (record c { pending_operation = operation }) ≡ some t
      → IsUp c
      → IsUp t
  unfolding answer
  answer_as-IsUp no_operation pdu c t q h = subst IsUp (some-injective _ _ q) h
  answer_as-IsUp read_holding_registers pdu c t q h =
      told-IsUp {A = PduDecodeResult _} _ _
        (record c { pending_operation = read_holding_registers }) t q h
  answer_as-IsUp read_input_registers pdu c t q h =
      told-IsUp {A = PduDecodeResult _} _ _ (record c { pending_operation = read_input_registers })
        t q h
  answer_as-IsUp read_coils pdu c t q h =
      told-IsUp {A = PduDecodeResult _} _ _ (record c { pending_operation = read_coils }) t q h
  answer_as-IsUp read_discrete_inputs pdu c t q h =
      told-IsUp {A = PduDecodeResult _} _ _ (record c { pending_operation = read_discrete_inputs })
        t q h
  answer_as-IsUp write_single_register pdu c t q h =
      told-IsUp {A = PduDecodeResult _} _ _ (record c { pending_operation = write_single_register })
        t q h
  answer_as-IsUp write_single_coil pdu c t q h =
      told-IsUp {A = PduDecodeResult _} _ _ (record c { pending_operation = write_single_coil }) t q
        h

  handle_response_received-IsUp :
      (id : ℕ) (pdu : List ℕ) (c t : Controller R)
      → handle_response_received id pdu c ≡ some t
      → IsUp c
      → IsUp t
  unfolding handle_response_received
  handle_response_received-IsUp id pdu c t q h =
      branch_kept IsUp (id == c.pending_correlation_id) _ _ t
        (λ r.
          let (told, k, l) = >>=-eq-some {A = Controller R} (answer pdu c) _ r in
          subst IsUp (some-injective _ _ l) (answer_as-IsUp c.pending_operation pdu c told k h))
        (λ r. subst IsUp (some-injective _ _ r) h) q

  handle_request_failed-IsUp :
      (id : ℕ) (why : Message) (c : Controller R) → IsUp c → IsUp (handle_request_failed id why c)
  unfolding handle_request_failed emit
  handle_request_failed-IsUp id why c h =
      elim (id == c.pending_correlation_id)
        as (λ b. IsUp (
          if b
          then emit (operation_failed why) (record c { pending_operation = no_operation })
          else c)) [ true ↦ h | false ↦ h ]

module _ {R : Type 0} where
  -- A slot that reads outside a list leaves the session as it was, but marked.
  abbrev or_broken : Session R → Option (Session R) → Session R
  or_broken s none = with_controller (λ c. record c { broken = true }) s
  or_broken s (some t) = t

module _ {R : Type 0} (n : Numerics R) (write : List ℕ → Session R → Session R) where
  -- The slots as the manager's client.
  unfoldable pub controller_client : ℕ → Client (PollEngine × Controller R)
  controller_client now = record {
    response_received = λ id pdu s. or_broken s (on_response n write now id pdu s);
    request_failed = λ id why s. or_broken s (on_failure n write now id why s);
  }

module _ {R : Type 0} (n : Numerics R) (write : List ℕ → Session R → Session R)
    (write_keeps : (frame : List ℕ) (s : Session R) → IsUp s.1.1 → IsUp (write frame s).1.1) where
  finish_cycle-IsUp :
      (now : ℕ) (s : Session R) → IsUp s.1.1 → IsUp (finish_cycle (controller_observer n) now s).1.1
  unfolding finish_cycle controller_observer
  finish_cycle-IsUp now (m, (e, c)) h =
      let again =
        if e.running then record e { interval_timer = some (now + e.interval_ms) } else e in
      elim (leb (length e.plans) e.next_plan_index && (e.requests_outstanding == 0))
        as (λ b.
          let ended : Session R = if b then (m, (again, c)) else (m, (e, c)) in IsUp ended.1.1) [
            | true ↦ h
            | false ↦ h
          ]

  note_request_settled-IsUp :
      (now : ℕ) (s t : Session R)
      → note_request_settled (controller_wire write) (controller_observer n) now s ≡ some t
      → IsUp s.1.1
      → IsUp t.1.1
  unfolding note_request_settled pump_requests
  note_request_settled-IsUp now (m, (e, c)) t q h =
      let (pumped, k, l) = >>=-eq-some {A = Session R} _ _ q in
      let up = pump_loop-IsUp write write_keeps _ _ now _ pumped k h in
      subst (λ u. IsUp u.1.1) (some-injective _ _ l) (finish_cycle-IsUp now pumped up)

  handle_response-IsUp :
      (now id : ℕ) (pdu : List ℕ) (s t : Session R)
      → handle_response (controller_wire write) (controller_observer n) now id pdu s ≡ some t
      → IsUp s.1.1
      → IsUp t.1.1
  unfolding handle_response
  handle_response-IsUp now id pdu (m, (e, c)) t q h =
      branch_kept (λ u. IsUp u.1.1) (not e.running || not (is_current_generation e id)) _ _ t
        (λ r. subst (λ u. IsUp u.1.1) (some-injective _ _ r) h)
        (λ r.
          let ((e1, c1), k, l) = >>=-eq-some {A = PollEngine × Controller R} _ _ r in
          note_request_settled-IsUp now (m, (e1, c1)) t l
            (apply_at-IsUp n now _ pdu (e, c) (e1, c1) h k))
        q

  handle_failure-IsUp :
      (now id : ℕ) (why : Message) (s t : Session R)
      → handle_failure (controller_wire write) (controller_observer n) now id why s ≡ some t
      → IsUp s.1.1
      → IsUp t.1.1
  unfolding handle_failure
  handle_failure-IsUp now id why (m, (e, c)) t q h =
      branch_kept (λ u. IsUp u.1.1) (not e.running || not (is_current_generation e id)) _ _ t
        (λ r. subst (λ u. IsUp u.1.1) (some-injective _ _ r) h)
        (λ r.
          note_request_settled-IsUp now (m, (e, _)) t r
            (fail_at-IsUp n why _ _ (poll_failed-IsUp n why c h)))
        q

  on_response-IsUp :
      (now id : ℕ) (pdu : List ℕ) (s t : Session R)
      → on_response n write now id pdu s ≡ some t
      → IsUp s.1.1
      → IsUp t.1.1
  unfolding on_response
  on_response-IsUp now id pdu s t q h =
      let (settled, k, l) = >>=-eq-some {A = Session R} _ _ q in
      let (told, k2, l2) =
        >>=-eq-some {A = Controller R} (handle_response_received id pdu settled.1.1) _ l in
      subst (λ u. IsUp u.1.1) (some-injective _ _ l2)
        (handle_response_received-IsUp id pdu settled.1.1 told k2
          (handle_response-IsUp now id pdu s settled k h))

  on_failure-IsUp :
      (now id : ℕ) (why : Message) (s t : Session R)
      → on_failure n write now id why s ≡ some t
      → IsUp s.1.1
      → IsUp t.1.1
  unfolding on_failure emit
  on_failure-IsUp now id why s t q h =
      let (settled, k, l) = >>=-eq-some {A = Session R} _ _ q in
      subst (λ u. IsUp u.1.1) (some-injective _ _ l)
        (handle_request_failed-IsUp id why _ (handle_failure-IsUp now id why s settled k h))

  or_broken-IsUp :
      (s : Session R) (o : Option (Session R))
      → ((t : Session R) → o ≡ some t → IsUp t.1.1)
      → IsUp s.1.1
      → IsUp (or_broken s o).1.1
  or_broken-IsUp s none rest h = h
  or_broken-IsUp s (some t) rest h = rest t refl

  pub controller-IsKept :
      (now : ℕ) → IsKept (controller_wire write) (controller_client n write now) (λ w. IsUp w.1)
  unfolding controller_wire controller_client emit
  controller-IsKept now = record {
    by_write = λ frame s h. write_keeps frame s h;
    by_sent = λ frame w h. h;
    by_received = λ frame w h. h;
    by_response = λ id pdu s h. or_broken-IsUp s _ (λ t q. on_response-IsUp now id pdu s t q h) h;
    by_failure = λ id why s h. or_broken-IsUp s _ (λ t q. on_failure-IsUp now id why s t q h) h;
  }
