-- ===== src/Controller/Tests.antt =====
-- A session over a serial port that has been opened, with integers in the place of `double`.
use modbus_viewer.Prelude.{
  ℕ, ◌≡◌, refl, true, false, List, [], ◌∷◌, ◌++◌, none, some, arith, if◌then◌else◌,
}
use modbus_viewer.Prelude.Integers.{ℤ}
use modbus_viewer.Prelude.Texts.{codes}
use modbus_viewer.Model.{holding_register}
use modbus_viewer.Addresses.{pdu}
use modbus_viewer.Pdu.Exceptions.{request_timed_out}
use modbus_viewer.Coalesce.{default_coalescing_options}
use modbus_viewer.Transaction.{Manager, FramingMode}
use modbus_viewer.Transaction.Expiry.{handle_timeout}
use modbus_viewer.Controller.Answers.{controller_client}
use modbus_viewer.Poll.Engine.{PollEngine, make_correlation_id}
use modbus_viewer.Poll.Settling.{handle_response, handle_failure}
use modbus_viewer.Format.Samples.{integers}
use modbus_viewer.Controller.State.{
  disconnected, connected, connection_lost, by_rtu, by_tcp, no_operation, Controller, Session,
  state_changed, polling_changed, lost_emitted,
}
use modbus_viewer.Controller.Polling.{controller_wire, controller_observer}
use modbus_viewer.Controller.Connection.{
  connection_state, Qt, handle_lost, handle_transport_error, handle_event,
  handle_transport_connection_state_changed, disconnect_from_device,
}
use modbus_viewer.Controller.Requests.{handle_response_received, handle_request_failed}
use modbus_viewer.Controller.Recovery.{Refusal}
use modbus_viewer.Controller.Upkeep.{IsUp}
use modbus_viewer.Controller.Links.{
  here, further, event, response_timer, Loss, losing_write, went_wrong, LinkReach-IsUp,
}
use modbus_viewer.Controller.Serial.{retry_all, retry_all-lost}
use modbus_viewer.Controller.Disconnecting.{disconnect_from_device-lost}
use modbus_viewer.Controller.Sharing.{responses_apart}

abbrev manager : Manager
manager = record {
  transport = none;
  framing_mode = FramingMode.rtu;
  timer = none;
  timeout_ms = 1000;
  retry_count = 2;
  next_transaction_id = 0;
  pending = [];
  receive_buffer = [];
}

abbrev engine : PollEngine
engine = record {
  interval_timer = none;
  flush_timer = none;
  targets = [];
  plans = [];
  caches = [];
  coalescing_options = default_coalescing_options;
  interval_ms = 1000;
  max_in_flight = 1;
  running = true;
  generation = 1;
  next_plan_index = 0;
  requests_outstanding = 0;
}

abbrev controller : Controller ℤ
controller = record {
  state = connected;
  error_message = [];
  connection_type = by_rtu;
  host = [];
  port = 502;
  unit_id = 1;
  timeout_ms = 1000;
  retry_count = 2;
  poll_interval_ms = 1000;
  reconnect_interval_ms = 5000;
  reconnect_timer = none;
  resume_polling_on_reconnect = false;
  poll_register_type = holding_register;
  poll_start_address = 0;
  poll_quantity = 10;
  favorites = record { entries = []; address_convention = pdu };
  favorites_active = false;
  port_name = codes "COM3";
  baud_rate = 9600;
  data_bits = 8;
  parity = 2;
  stop_bits = 1;
  pending_operation = no_operation;
  pending_start_address = 0;
  pending_quantity = 0;
  pending_correlation_id = 7;
  serial_open = true;
  broken = false;
  signals = [];
}

-- A transport that takes every frame, and a port that opens only when it is closed.
abbrev silent : List ℕ → Session ℤ → Session ℤ
silent frame s = s

abbrev qt : Qt
qt = record {
  serial_open = λ now is_open settings. record {
    emitted = [];
    opened = if is_open then false else true;
    error_string = [];
  };
  socket_connect = λ now host port. [];
  socket_disconnect = λ now. [];
}

-- Over TCP, with one reconnect attempt that is refused before the one that is not.
abbrev over_tcp : Controller ℤ
over_tcp = record controller { connection_type = by_tcp }

abbrev refused_once : List Refusal
refused_once =
    record { tried_at = 5010; refused_at = 5020; message = codes "Connection refused" } ∷ []

-- A write that meets an error.
abbrev broken_write : List ℕ → List (ℕ × Loss)
broken_write frame = (10, went_wrong (codes "gone")) ∷ []

abbrev after_loss : Session ℤ
after_loss = handle_lost 10 (manager, (engine, controller))

LinkReach-IsUp_example :
    IsUp
      (handle_timeout
        (controller_wire (losing_write broken_write))
        (controller_client integers (losing_write broken_write) 1010)
        1010
        after_loss).1.1
unfolding handle_event handle_transport_connection_state_changed
LinkReach-IsUp_example =
    LinkReach-IsUp broken_write {n = integers} {qt = qt}
      (further
        (further here
          (event 10 (connection_state false) (manager, (engine, controller)) after_loss refl))
        (response_timer 1010 after_loss))
      refl

retry_all-lost_example :
    (t : Session ℤ) × (retry_all silent qt
        (5010 ∷ 10010 ∷ [])
        (handle_transport_error 10 (codes "gone") (manager, (engine, controller)))
      ≡ some t)
    × (t.1.1.state ≡ connection_lost)
    × (t.1.1.serial_open ≡ true)
retry_all-lost_example =
    retry_all-lost silent qt 10 (codes "gone") (5010 ∷ 10010 ∷ []) manager engine controller
      (λ at settings. refl) refl refl refl refl

disconnect_from_device-lost_example :
    (t : Session ℤ) × (disconnect_from_device silent qt 10 (manager, (engine, controller)) ≡ some t)
    × (t.1.1.state ≡ disconnected)
    × (t.1.1.signals
        ≡ ((([] ++ (polling_changed ∷ [])) ++ (state_changed ∷ [])) ++ (lost_emitted ∷ []))
          ++ (state_changed ∷ []))
    × (t.1.1.reconnect_timer ≡ some 5010)
disconnect_from_device-lost_example =
    disconnect_from_device-lost silent qt 10 manager engine controller refl refl refl

responses_apart_example :
    (handle_response_received (make_correlation_id engine 0) (3 ∷ []) controller ≡ some controller)
    × (handle_request_failed (make_correlation_id engine 0) (request_timed_out 1000) controller
        ≡ controller)
    × (handle_response
          (controller_wire silent)
          (controller_observer integers)
          10
          7
          (3 ∷ [])
          (manager, (engine, controller))
        ≡ some (manager, (engine, controller)))
    × (handle_failure
          (controller_wire silent)
          (controller_observer integers)
          10
          7
          (request_timed_out 1000)
          (manager, (engine, controller))
        ≡ some (manager, (engine, controller)))
responses_apart_example =
    responses_apart (controller_wire silent) (controller_observer integers) 10 0 7 (3 ∷ [])
      (request_timed_out 1000) engine manager engine controller (omega arith) (omega arith)
      (omega arith) (omega arith) (omega arith)
