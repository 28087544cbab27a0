-- ===== src/Controller/Requests.antt =====
-- The single requests of app-lib/ConnectionController.cpp and their responses. The poll engine and the
-- controller are connected to the same signals, the engine first.
use modbus_viewer.Prelude.{
  ℕ, ◌+◌, ◌%◌, ◌^◌, Bool, not, List, Option, some, ◌>>=◌, ◌==◌, if◌then◌else◌,
}
use modbus_viewer.Model.{
  RegisterType, coil, discrete_input, holding_register, input_register, read_function_code_for,
}
use modbus_viewer.Pdu.Exceptions.{Message}
use modbus_viewer.Pdu.Requests.{
  encode_read_request, encode_write_single_register_request, encode_write_single_coil_request,
}
use modbus_viewer.Pdu.Responses.{
  PduDecodeResult, success, malformed, exception_response, decode_read_holding_registers_response,
  decode_read_input_registers_response, decode_read_coils_response,
  decode_read_discrete_inputs_response, decode_write_single_register_response,
  decode_write_single_coil_response,
}
use modbus_viewer.Transaction.{send_request}
use modbus_viewer.Poll.Settling.{handle_response, handle_failure}
use modbus_viewer.Format.Settings.{Numerics}
use modbus_viewer.Controller.State.{
  PendingOperation, no_operation, read_holding_registers, read_input_registers, read_coils,
  read_discrete_inputs, write_single_register, write_single_coil, Controller, Session, Signal, emit,
  with_controller, holding_registers_read, bits_read, single_register_written, single_coil_written,
  operation_failed, communication_logged, timeout,
}
use modbus_viewer.Controller.Polling.{controller_wire, controller_observer}

abbrev pub operation_for : RegisterType → PendingOperation
operation_for coil = read_coils
operation_for discrete_input = read_discrete_inputs
operation_for holding_register = read_holding_registers
operation_for input_register = read_input_registers

-- What is emitted for a result: the value or the message.
unfoldable pub report : {T : Type 0} → (T → Signal) → PduDecodeResult T → Signal
report told (success value) = told value
report told (malformed message) = operation_failed message
report told (exception_response response) = operation_failed response.message

module _ {R : Type 0} where
  -- The `switch` over the pending operation. `none` is a read outside the PDU.
  unfoldable pub answer : List ℕ → Controller R → Option (Controller R)
  answer pdu c = elim c.pending_operation [
    | read_holding_registers ↦
        (decode_read_holding_registers_response pdu >>= λ result.
        some (emit (report (holding_registers_read c.pending_start_address) result) c))
    | read_input_registers ↦
        (decode_read_input_registers_response pdu >>= λ result.
        some (emit (report (holding_registers_read c.pending_start_address) result) c))
    | read_coils ↦
        (decode_read_coils_response pdu (c.pending_quantity % 65536) >>= λ result.
        some (emit (report (bits_read c.pending_start_address) result) c))
    | read_discrete_inputs ↦
        (decode_read_discrete_inputs_response pdu (c.pending_quantity % 65536) >>= λ result.
        some (emit (report (bits_read c.pending_start_address) result) c))
    | write_single_register ↦
        (decode_write_single_register_response pdu >>= λ result.
        some (emit (report (λ r. single_register_written r.address r.value) result) c))
    | write_single_coil ↦
        (decode_write_single_coil_response pdu >>= λ result.
        some (emit (report (λ r. single_coil_written r.address (not (r.value == 0))) result) c))
    | no_operation ↦ some c
  ]

  unfoldable pub handle_response_received : ℕ → List ℕ → Controller R → Option (Controller R)
  handle_response_received correlation_id pdu c =
      if correlation_id == c.pending_correlation_id
      then (answer pdu c >>= λ told. some (record told { pending_operation = no_operation }))
      else some c

  unfoldable pub handle_request_failed : ℕ → Message → Controller R → Controller R
  handle_request_failed correlation_id reason c =
      if correlation_id == c.pending_correlation_id
      then emit (operation_failed reason) (record c { pending_operation = no_operation })
      else c

module _ {R : Type 0} (write : List ℕ → Session R → Session R) where
  -- `++m_pendingCorrelationId`, a quint64, and the request.
  unfoldable pub send_single : ℕ → List ℕ → Session R → Session R
  send_single now pdu (m, (e, c)) =
      let id = (c.pending_correlation_id + 1) % 2 ^ 64 in
      send_request (controller_wire write) now (c.unit_id % 256) pdu id
        (m, (e, record c { pending_correlation_id = id }))

  unfoldable pub read_range : ℕ → RegisterType → ℕ → ℕ → Session R → Session R
  read_range now type start_address quantity s =
      send_single now
        (encode_read_request (read_function_code_for type) (start_address % 65536)
          (quantity % 65536))
        (with_controller
          (λ c. record c {
            pending_operation = operation_for type;
            pending_start_address = start_address;
            pending_quantity = quantity;
          })
          s)

  unfoldable pub write_register : ℕ → ℕ → ℕ → Session R → Session R
  write_register now address value s =
      send_single now (encode_write_single_register_request (address % 65536) (value % 65536)) (
        with_controller
          (λ c. record c {
            pending_operation = write_single_register;
            pending_start_address = address;
          })
          s)

  unfoldable pub write_coil : ℕ → ℕ → Bool → Session R → Session R
  write_coil now address value s =
      send_single now (encode_write_single_coil_request (address % 65536) value) (
        with_controller
          (λ c. record c { pending_operation = write_single_coil; pending_start_address = address })
          s)

module _ {R : Type 0} (n : Numerics R) (write : List ℕ → Session R → Session R) where
  abbrev pub answered : ℕ → List ℕ → Session R → Option (Session R)
  answered correlation_id pdu (m, (e, c)) =
      handle_response_received correlation_id pdu c >>= λ told. some (m, (e, told))

  -- The slots on `responseReceived` and on `requestFailed`, in the order in which they are connected.
  unfoldable pub on_response : ℕ → ℕ → List ℕ → Session R → Option (Session R)
  on_response now correlation_id pdu s =
      handle_response (controller_wire write) (controller_observer n) now correlation_id pdu s
      >>= answered correlation_id pdu

  unfoldable pub on_failure : ℕ → ℕ → Message → Session R → Option (Session R)
  on_failure now correlation_id reason s =
      handle_failure (controller_wire write) (controller_observer n) now correlation_id reason s
      >>= λ settled. some (
          with_controller
            (λ c.
              handle_request_failed correlation_id reason
                (emit (communication_logged 2 (timeout reason)) c))
            settled)
