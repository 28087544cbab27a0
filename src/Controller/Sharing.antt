-- ===== src/Controller/Sharing.antt =====
-- The two users of the transaction manager in app-lib/ConnectionController.cpp: the ids of polls and of
-- single requests.
use modbus_viewer.Prelude.{
  ℕ, ◌/◌, ◌%◌, ◌^◌, ◌≤◌, ◌<◌, ◌≡◌, refl, false, List, some, ◌==◌, arith, inl, inr, Bool-cases,
}
use modbus_viewer.Pdu.Exceptions.{Message}
use modbus_viewer.Transaction.{Manager, Wire}
use modbus_viewer.Poll.Engine.{PollEngine, Observer, make_correlation_id, is_current_generation}
use modbus_viewer.Poll.Generations.{id_value}
use modbus_viewer.Poll.Settling.{handle_response, handle_failure}
use modbus_viewer.Controller.State.{Controller}
use modbus_viewer.Controller.Requests.{handle_response_received, handle_request_failed}

poll_id_other :
    (sender : PollEngine) (i pending : ℕ)
    → i < 2 ^ 32
    → 1 ≤ sender.generation
    → pending < 2 ^ 32
    → (make_correlation_id sender i == pending) ≡ false
poll_id_other sender i pending hi hg hp = rw (id_value sender i hi) (ground arith)

single_id_old :
    (e : PollEngine) (id : ℕ) → id < 2 ^ 32 → 1 ≤ e.generation → is_current_generation e id ≡ false
unfolding is_current_generation
single_id_old e id h hg = let top : id / 2 ^ 32 % 2 ^ 32 ≡ 0 = omega arith in rw top (ground arith)

-- The controller ignores the response and the failure of every request that a poll engine has sent
-- with a generation above 0, and a poll engine with a generation above 0 ignores those of every single
-- request, as long as the controller has counted fewer than 2^32 single requests.
pub responses_apart :
    {R : Type 0} (wire : Wire (PollEngine × Controller R)) (observer : Observer (Controller R))
    (now plan_index single : ℕ) (pdu : List ℕ) (reason : Message) (sender : PollEngine)
    (m : Manager) (e : PollEngine) (c : Controller R)
    → plan_index < 2 ^ 32
    → 1 ≤ sender.generation
    → 1 ≤ e.generation
    → single < 2 ^ 32
    → c.pending_correlation_id < 2 ^ 32
    → (handle_response_received (make_correlation_id sender plan_index) pdu c ≡ some c)
      × (handle_request_failed (make_correlation_id sender plan_index) reason c ≡ c)
      × (handle_response wire observer now single pdu (m, (e, c)) ≡ some (m, (e, c)))
      × (handle_failure wire observer now single reason (m, (e, c)) ≡ some (m, (e, c)))
unfolding handle_response_received handle_request_failed handle_response handle_failure
    is_current_generation
responses_apart wire observer now plan_index single pdu reason sender m e c hi hs he hk hp =
    let other = poll_id_other sender plan_index c.pending_correlation_id hi hs hp in
    let old = single_id_old e single hk he in
    elim (Bool-cases e.running) [
      | inl r ↦ (rw other refl, rw other refl, rw (r, old) refl, rw (r, old) refl)
      | inr r ↦ (rw other refl, rw other refl, rw r refl, rw r refl)
    ]
