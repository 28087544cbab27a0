-- ===== src/Controller/Disconnecting.antt =====
-- An explicit disconnect in app-lib/ConnectionController.cpp from a serial port of
-- core/transport/SerialTransport.cpp.
use modbus_viewer.Prelude.{
  ℕ, ◌+◌, ◌≡◌, refl, subst, Bool, true, false, List, [], ◌∷◌, ◌++◌, some, if◌then◌else◌, append-nil,
}
use modbus_viewer.Transaction.{Manager}
use modbus_viewer.Poll.Engine.{PollEngine, stop}
use modbus_viewer.Controller.State.{
  disconnected, connected, by_rtu, Controller, Session, emit, set_state, state_changed,
  polling_changed, lost_emitted,
}
use modbus_viewer.Controller.Polling.{stop_polling}
use modbus_viewer.Controller.Connection.{
  Qt, handle_lost, mark_lost, pause_polling, handle_event, handle_events,
  handle_transport_connection_state_changed, close_active_transport, disconnect_from_device,
}
use modbus_viewer.Controller.Serial.{serial_in, serial_in_same}

module _ {R : Type 0} (write : List ℕ → Session R → Session R) where
  disconnect_serial :
      (qt : Qt) (now : ℕ) (m : Manager) (e : PollEngine) (c : Controller R) (running : Bool)
      → (t : Session R) × (disconnect_from_device write qt now
            (m, (record e { running = running }, serial_in connected c))
          ≡ some t)
        × (t.1.1.state ≡ disconnected)
        × (t.1.1.signals
            ≡ (((c.signals ++ (if running then polling_changed ∷ [] else []))
                  ++ (state_changed ∷ []))
                ++ (lost_emitted ∷ []))
              ++ (state_changed ∷ []))
        × (t.1.1.reconnect_timer ≡ some (now + c.reconnect_interval_ms))
  unfolding disconnect_from_device close_active_transport handle_events handle_event
      handle_transport_connection_state_changed handle_lost mark_lost pause_polling stop_polling
      stop set_state emit
  disconnect_serial qt now m e c true = (_, refl, refl, refl, refl)
  disconnect_serial qt now m e c false = (_, refl, refl, rw (append-nil c.signals) refl, refl)

  -- On a connected serial session with its port open, an explicit disconnect first emits that the
  -- connection was lost and arms the reconnect timer, and then ends disconnected.
  pub disconnect_from_device-lost :
      (qt : Qt) (now : ℕ) (m : Manager) (e : PollEngine) (c : Controller R)
      → c.state ≡ connected
      → c.connection_type ≡ by_rtu
      → c.serial_open ≡ true
      → (t : Session R) × (disconnect_from_device write qt now (m, (e, c)) ≡ some t)
        × (t.1.1.state ≡ disconnected)
        × (t.1.1.signals
            ≡ (((c.signals ++ (if e.running then polling_changed ∷ [] else []))
                  ++ (state_changed ∷ []))
                ++ (lost_emitted ∷ []))
              ++ (state_changed ∷ []))
        × (t.1.1.reconnect_timer ≡ some (now + c.reconnect_interval_ms))
  disconnect_from_device-lost qt now m e c up serial opened =
      let (t, k, ended, told, armed) = disconnect_serial qt now m e c e.running in
      (
        t,
        subst (λ c'. disconnect_from_device write qt now (m, (e, c')) ≡ some t)
            (serial_in_same connected c up serial opened) k,
        ended,
        told,
        armed,
      )
