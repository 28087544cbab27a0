-- ===== src/Controller/Serial.antt =====
-- app-lib/ConnectionController.cpp on a serial port of core/transport/SerialTransport.cpp: an error on
-- an open port.
use modbus_viewer.Prelude.{
  ℕ, ◌≡◌, refl, sym, ap, subst, ◌∙◌, Bool, true, false, List, [], ◌∷◌, ◌++◌, map, Option, none,
  some, ◌>>=◌,
}
use modbus_viewer.Prelude.Texts.{Text, codes, is_empty}
use modbus_viewer.Transaction.{Manager}
use modbus_viewer.Poll.Engine.{PollEngine, stop}
use modbus_viewer.Controller.State.{
  ConnectionState, connected, connection_lost, state_eq, ConnectionType, by_rtu, Controller,
  Session, emit, set_state,
}
use modbus_viewer.Controller.Polling.{stop_polling}
use modbus_viewer.Controller.Connection.{
  error_occurred, Opening, Qt, SerialPortSettings, open_serial, handle_lost, mark_lost,
  pause_polling, handle_transport_error, handle_event, handle_events, open_active_transport,
  configured, serial_settings, begin_reconnect_attempt,
}

open_serial_refused :
    (is_open : Bool) (settings : SerialPortSettings) (outcome : Opening)
    → is_empty settings.port_name ≡ false
    → outcome.opened ≡ false
    → open_serial is_open settings outcome ≡ (
      is_open,
      map error_occurred outcome.emitted
          ++ (error_occurred (
                codes "Could not open "
                ++ (settings.port_name ++ (codes ": " ++ outcome.error_string)))
              ∷ []),
    )
unfolding open_serial
open_serial_refused is_open settings outcome named refused = rw (named, refused) refl

-- A serial connection that is lost while its port is still open.
record IsStranded {R : Type 0} (s : Session R) : Type 0 where
  lost : s.1.1.state ≡ connection_lost
  serial : s.1.1.connection_type ≡ by_rtu
  open_port : s.1.1.serial_open ≡ true
  named : is_empty s.1.1.port_name ≡ false

module _ {R : Type 0} where
  error_when_lost :
      (now : ℕ) (message : Text) (s : Session R)
      → IsStranded s
      → IsStranded (handle_transport_error now message s)
  unfolding handle_transport_error emit
  error_when_lost now message (m, (e, c)) h =
      let first : state_eq c.state connected ≡ false = ap (λ a. state_eq a connected) h.lost in
      let second : state_eq c.state connection_lost ≡ true =
        ap (λ a. state_eq a connection_lost) h.lost in
      rw (first, second)
        (record { lost = h.lost; serial = h.serial; open_port = h.open_port; named = h.named })

  -- The session with the fields that decide here written out.
  abbrev pub serial_in : ConnectionState → Controller R → Controller R
  serial_in state c = record c { state = state; connection_type = by_rtu; serial_open = true }

  pub serial_in_same :
      (state : ConnectionState) (c : Controller R)
      → c.state ≡ state
      → c.connection_type ≡ by_rtu
      → c.serial_open ≡ true
      → serial_in state c ≡ c
  serial_in_same state c here serial opened =
      ap
        (λ (a : ConnectionState). record c {
          state = a;
          connection_type = by_rtu;
          serial_open = true;
        })
        (sym here)
      ∙ ap (λ (k : ConnectionType). record c { connection_type = k; serial_open = true })
          (sym serial)
      ∙ ap (λ (b : Bool). record c { serial_open = b }) (sym opened)

  error_when_serial :
      (now : ℕ) (message : Text) (m : Manager) (e : PollEngine) (c : Controller R) (running : Bool)
      → is_empty c.port_name ≡ false
      → IsStranded (
          handle_transport_error now message
            (m, (record e { running = running }, serial_in connected c)))
  unfolding handle_transport_error handle_lost mark_lost pause_polling stop_polling stop set_state
      emit
  error_when_serial now message m e c true named = record {
    lost = refl;
    serial = refl;
    open_port = refl;
    named = named;
  }
  error_when_serial now message m e c false named = record {
    lost = refl;
    serial = refl;
    open_port = refl;
    named = named;
  }

module _ {R : Type 0} (write : List ℕ → Session R → Session R) where
  errors_when_lost :
      (now : ℕ) (messages : List Text) (last : Text) (s : Session R)
      → IsStranded s
      → (t : Session R) × (handle_events write now
            (map error_occurred messages ++ (error_occurred last ∷ []))
            s
          ≡ some t)
        × IsStranded t
  unfolding handle_events handle_event
  errors_when_lost now [] last s h =
      (handle_transport_error now last s, refl, error_when_lost now last s h)
  errors_when_lost now (message ∷ messages) last s h =
      errors_when_lost now messages last (handle_transport_error now message s)
        (error_when_lost now message s h)

  open_when_serial :
      (qt : Qt) (now : ℕ) (m : Manager) (e : PollEngine) (c : Controller R)
      → (qt.serial_open now true (serial_settings c)).opened ≡ false
      → is_empty c.port_name ≡ false
      → (t : Session R) × (open_active_transport write qt now (m, (e, serial_in connection_lost c))
          ≡ some t)
        × IsStranded t
  unfolding open_active_transport
  open_when_serial qt now m e c refused named =
      let outcome = qt.serial_open now true (serial_settings c) in
      let tried = open_serial_refused true (serial_settings c) outcome named refused in
      let failed : Session R = (configured c m, (e, serial_in connection_lost c)) in
      let (t, k, h) =
        errors_when_lost now outcome.emitted
          (codes "Could not open " ++ (c.port_name ++ (codes ": " ++ outcome.error_string)))
          (configured (serial_in connection_lost c) m, (e, serial_in connection_lost c))
          (record { lost = refl; serial = refl; open_port = refl; named = named }) in
      (t, rw tried k, h)

  retry_when_lost :
      (qt : Qt) (now : ℕ) (s : Session R)
      → ((at : ℕ) (settings : SerialPortSettings)
          → (qt.serial_open at true settings).opened ≡ false)
      → IsStranded s
      → (t : Session R) × (begin_reconnect_attempt write qt now s ≡ some t) × IsStranded t
  unfolding begin_reconnect_attempt
  retry_when_lost qt now (m, (e, c)) refuses h =
      let fired : Controller R = record c { reconnect_timer = none } in
      let (t, k, stranded) =
        open_when_serial qt now m e fired (refuses now (serial_settings c)) h.named in
      let same : serial_in connection_lost fired ≡ fired =
        serial_in_same connection_lost fired h.lost h.serial h.open_port in
      let opened : open_active_transport write qt now (m, (e, fired)) ≡ some t =
        subst (λ c'. open_active_transport write qt now (m, (e, c')) ≡ some t) same k in
      let lost : state_eq c.state connection_lost ≡ true =
        ap (λ a. state_eq a connection_lost) h.lost in
      (t, rw lost opened, stranded)

  -- The reconnect timer firing at each of some times.
  abbrev pub retry_all : Qt → List ℕ → Session R → Option (Session R)
  retry_all qt [] s = some s
  retry_all qt (now ∷ nows) s = begin_reconnect_attempt write qt now s >>= retry_all qt nows

  retries_when_lost :
      (qt : Qt) (nows : List ℕ) (s : Session R)
      → ((at : ℕ) (settings : SerialPortSettings)
          → (qt.serial_open at true settings).opened ≡ false)
      → IsStranded s
      → (t : Session R) × (retry_all qt nows s ≡ some t) × IsStranded t
  retries_when_lost qt [] s refuses h = (s, refl, h)
  retries_when_lost qt (now ∷ nows) s refuses h =
      let (u, k, stranded) = retry_when_lost qt now s refuses h in
      let (t, l, end) = retries_when_lost qt nows u refuses stranded in (t, rw k l, end)

  -- On a connected serial session with its port open, an error loses the connection and leaves the
  -- port open, and then no reconnect attempt ever succeeds where QSerialPort refuses to open a port
  -- that is open: the session stays with its connection lost.
  pub retry_all-lost :
      (qt : Qt) (now : ℕ) (message : Text) (nows : List ℕ) (m : Manager) (e : PollEngine)
      (c : Controller R)
      → ((at : ℕ) (settings : SerialPortSettings)
          → (qt.serial_open at true settings).opened ≡ false)
      → c.state ≡ connected
      → c.connection_type ≡ by_rtu
      → c.serial_open ≡ true
      → is_empty c.port_name ≡ false
      → (t : Session R) × (retry_all qt nows (handle_transport_error now message (m, (e, c)))
          ≡ some t)
        × (t.1.1.state ≡ connection_lost)
        × (t.1.1.serial_open ≡ true)
  retry_all-lost qt now message nows m e c refuses up serial opened named =
      let start =
        subst (λ c'. IsStranded (handle_transport_error now message (m, (e, c'))))
          (serial_in_same connected c up serial opened)
          (error_when_serial now message m e c e.running named) in
      let (t, k, h) =
        retries_when_lost qt nows (handle_transport_error now message (m, (e, c))) refuses start in
      (t, k, h.lost, h.open_port)
