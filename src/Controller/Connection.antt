-- ===== src/Controller/Connection.antt =====
-- The connection of app-lib/ConnectionController.cpp, with `open` and `close` of
-- core/transport/TcpTransport.cpp and core/transport/SerialTransport.cpp.
use modbus_viewer.Prelude.{
  ℕ, ◌+◌, ◌%◌, Bool, true, false, ◌||◌, List, [], ◌∷◌, ◌++◌, map, Option, none, some, ◌>>=◌,
  if◌then◌else◌,
}
use modbus_viewer.Prelude.Texts.{Text, codes, is_empty}
use modbus_viewer.Transaction.{
  Manager, Transport, FramingMode, set_transport, set_framing_mode, set_timeout_ms, set_retry_count,
}
use modbus_viewer.Controller.State.{
  disconnected, connecting, connected, connection_lost, failed, state_eq, by_tcp, by_rtu,
  Controller, Session, emit, set_state, with_controller, lost_emitted, restored_emitted,
  error_message_changed, communication_logged, error,
}
use modbus_viewer.Controller.Polling.{stop_polling, start_polling, start_polling_favorites}

-- What a transport emits about its connection. The bytes of its third signal, `dataReceived`, go to
-- the transaction manager.
pub data TransportEvent : Type 0 where
  connection_state : Bool → TransportEvent
  error_occurred : Text → TransportEvent

-- Without the flow control, which stays at its default.
pub record SerialPortSettings : Type 0 where
  pub port_name : Text
  pub baud_rate : ℕ
  pub data_bits : ℕ
  pub parity : ℕ
  pub stop_bits : ℕ

-- The outcome of `QSerialPort::open`: the errors that the port emits meanwhile, the result, and
-- `errorString()`.
pub record Opening : Type 0 where
  pub emitted : List Text
  pub opened : Bool
  pub error_string : Text

-- What Qt's objects do at a time. `serial_open` is told whether the port is open already; the others
-- are what the socket emits before its call returns.
pub record Qt : Type 0 where
  pub serial_open : ℕ → Bool → SerialPortSettings → Opening
  pub socket_connect : ℕ → Text → ℕ → List TransportEvent
  pub socket_disconnect : ℕ → List TransportEvent

abbrev pub tcp_transport : Transport
tcp_transport = record { identity = 0; pipelining = true }

abbrev pub serial_transport : Transport
serial_transport = record { identity = 1; pipelining = false }

-- `SerialTransport::open` with the outcome of the port's own, and whether the port is open after it.
unfoldable pub open_serial : Bool → SerialPortSettings → Opening → Bool × List TransportEvent
open_serial is_open settings outcome =
    if is_empty settings.port_name
    then (is_open, error_occurred (codes "No serial port selected.") ∷ [])
    else if outcome.opened
    then (true, map error_occurred outcome.emitted ++ (connection_state true ∷ []))
    else (
      is_open,
      map error_occurred outcome.emitted
          ++ (error_occurred (
                codes "Could not open "
                ++ (settings.port_name ++ (codes ": " ++ outcome.error_string)))
              ∷ []),
    )

-- `SerialTransport::close`.
abbrev pub close_serial : Bool → List TransportEvent
close_serial is_open = if is_open then connection_state false ∷ [] else []

module _ {R : Type 0} where
  -- The parts of `handleTransportConnectionStateChanged` after `setState`.
  unfoldable pub mark_connected : Controller R → Controller R
  mark_connected c =
      let told = set_state connected (record c { reconnect_timer = none }) in
      if state_eq c.state connection_lost then emit restored_emitted told else told

  unfoldable pub mark_lost : ℕ → Bool → Controller R → Controller R
  mark_lost now was_connected c =
      let told = set_state connection_lost c in
      let emitted = if was_connected then emit lost_emitted told else told in
      record emitted { reconnect_timer = some (now + emitted.reconnect_interval_ms) }

  unfoldable pub pause_polling : Session R → Session R
  pause_polling (m, (e, c)) =
      if e.running
      then stop_polling (m, (e, record c { resume_polling_on_reconnect = true }))
      else (m, (e, c))

  -- `handleTransportConnectionStateChanged(false)`.
  unfoldable pub handle_lost : ℕ → Session R → Session R
  handle_lost now (m, (e, c)) =
      if state_eq c.state connected || state_eq c.state connection_lost
      then with_controller (mark_lost now (state_eq c.state connected)) (pause_polling (m, (e, c)))
      else (m, (e, c))

  unfoldable pub handle_transport_error : ℕ → Text → Session R → Session R
  handle_transport_error now message (m, (e, c)) =
      let told =
        emit error_message_changed
          (record (emit (communication_logged 2 (error message)) c) { error_message = message }) in
      if state_eq c.state connected
      then handle_lost now (m, (e, told))
      else if state_eq c.state connection_lost
      then (m, (e, record told { reconnect_timer = some (now + told.reconnect_interval_ms) }))
      else (m, (e, set_state failed told))

  -- The settings of the manager for the active transport.
  unfoldable pub configured : Controller R → Manager → Manager
  configured c m =
      let timed = set_retry_count c.retry_count (set_timeout_ms c.timeout_ms m) in
      elim c.connection_type [
        | by_tcp ↦ set_framing_mode FramingMode.tcp (set_transport (some tcp_transport) timed)
        | by_rtu ↦ set_framing_mode FramingMode.rtu (set_transport (some serial_transport) timed)
      ]

  abbrev pub serial_settings : Controller R → SerialPortSettings
  serial_settings c = record {
    port_name = c.port_name;
    baud_rate = c.baud_rate;
    data_bits = c.data_bits;
    parity = c.parity;
    stop_bits = c.stop_bits;
  }

module _ {R : Type 0} (write : List ℕ → Session R → Session R) where
  unfoldable pub resume_polling : ℕ → Session R → Option (Session R)
  resume_polling now (m, (e, c)) =
      let cleared = record c { resume_polling_on_reconnect = false } in
      let favorites = start_polling_favorites write now true (m, (e, cleared)) in
      let range =
        start_polling write now c.poll_register_type c.poll_start_address c.poll_quantity
          (m, (e, cleared)) in
      if c.resume_polling_on_reconnect
      then if c.favorites_active then favorites else range
      else some (m, (e, c))

  unfoldable pub handle_transport_connection_state_changed :
      ℕ → Bool → Session R → Option (Session R)
  handle_transport_connection_state_changed now true s =
      resume_polling now (with_controller mark_connected s)
  handle_transport_connection_state_changed now false s = some (handle_lost now s)

  unfoldable pub handle_event : ℕ → TransportEvent → Session R → Option (Session R)
  handle_event now (connection_state up) s = handle_transport_connection_state_changed now up s
  handle_event now (error_occurred message) s = some (handle_transport_error now message s)

  unfoldable pub handle_events : ℕ → List TransportEvent → Session R → Option (Session R)
  handle_events now [] s = some s
  handle_events now (event ∷ events) s = handle_event now event s >>= handle_events now events

  unfoldable pub open_active_transport : Qt → ℕ → Session R → Option (Session R)
  open_active_transport qt now (m, (e, c)) =
      let settings = serial_settings c in
      let attempt =
        open_serial c.serial_open settings (qt.serial_open now c.serial_open settings) in
      elim c.connection_type [
        | by_tcp ↦
            handle_events now (qt.socket_connect now c.host (c.port % 65536))
              (configured c m, (e, c))
        | by_rtu ↦
            handle_events now attempt.1 (configured c m, (e, record c { serial_open = attempt.0 }))
      ]

  unfoldable pub connect_to_device : Qt → ℕ → Session R → Option (Session R)
  connect_to_device qt now s = open_active_transport qt now (
      with_controller (λ c. set_state connecting (record c { resume_polling_on_reconnect = false }))
        s)

  -- `activeTransport()->close()`.
  unfoldable pub close_active_transport : Qt → ℕ → Session R → Option (Session R)
  close_active_transport qt now (m, (e, c)) = elim c.connection_type [
    | by_tcp ↦ handle_events now (qt.socket_disconnect now) (m, (e, c))
    | by_rtu ↦
        handle_events now (close_serial c.serial_open) (m, (e, record c { serial_open = false }))
  ]

  unfoldable pub disconnect_from_device : Qt → ℕ → Session R → Option (Session R)
  disconnect_from_device qt now s =
      let stopped = stop_polling (
        with_controller
          (λ c. record c { reconnect_timer = none; resume_polling_on_reconnect = false }) s) in
      (close_active_transport qt now
          (with_controller (λ c. record c { favorites_active = false }) stopped)
        >>= λ closed. some (with_controller (set_state disconnected) closed))

  -- The slot of the reconnect timer, which fires once.
  unfoldable pub begin_reconnect_attempt : Qt → ℕ → Session R → Option (Session R)
  begin_reconnect_attempt qt now (m, (e, c)) =
      let fired = record c { reconnect_timer = none } in
      let opened = open_active_transport qt now (m, (e, fired)) in
      if state_eq c.state connection_lost then opened else some (m, (e, fired))
