-- ===== src/Controller/Seeking.antt =====
-- A session of app-lib/ConnectionController.cpp over TCP that has lost its connection.
use modbus_viewer.Prelude.{
  ℕ, ◌+◌, ◌≡◌, refl, Bool, true, false, List, [], ◌∷◌, ◌++◌, Option, none, some,
}
use modbus_viewer.Prelude.Texts.{Text}
use modbus_viewer.Transaction.{Manager}
use modbus_viewer.Poll.Engine.{PollEngine, stop}
use modbus_viewer.Controller.State.{
  connected, connection_lost, by_tcp, Controller, Signal, emit, set_state, state_changed,
  polling_changed, lost_emitted, communication_logged, error_message_changed, error,
}
use modbus_viewer.Controller.Polling.{stop_polling}
use modbus_viewer.Controller.Connection.{
  handle_lost, mark_lost, pause_polling, handle_transport_error,
}

abbrev pub stopped : PollEngine → PollEngine
stopped e = record e {
  running = false;
  interval_timer = none;
  flush_timer = none;
  requests_outstanding = 0;
}

module _ {R : Type 0} where
  -- A TCP session that is lost and will poll again when the device is found.
  abbrev pub seeking : Option ℕ → Text → List Signal → Controller R → Controller R
  seeking timer message signals c = record c {
    state = connection_lost;
    connection_type = by_tcp;
    reconnect_timer = timer;
    resume_polling_on_reconnect = true;
    error_message = message;
    signals = signals;
  }

  abbrev pub polling_over_tcp : Bool → Controller R → Controller R
  polling_over_tcp favorites c = record c {
    state = connected;
    connection_type = by_tcp;
    favorites_active = favorites;
  }

  pub handle_lost-seeking :
      (now : ℕ) (m : Manager) (e : PollEngine) (c : Controller R) (favorites : Bool)
      → (m1 : Manager) × (handle_lost now
            (m, (record e { running = true }, polling_over_tcp favorites c))
          ≡ (
            m1,
            (
              stopped (record e { running = true }),
              seeking
                  (some (now + c.reconnect_interval_ms))
                  c.error_message
                  (((c.signals ++ (polling_changed ∷ [])) ++ (state_changed ∷ []))
                    ++ (lost_emitted ∷ []))
                  (polling_over_tcp favorites c),
            ),
          ))
  unfolding handle_lost mark_lost pause_polling stop_polling stop set_state emit
  handle_lost-seeking now m e c favorites = (_, refl)

  pub error_when_seeking :
      (now : ℕ) (text : Text) (m : Manager) (e : PollEngine) (c : Controller R) (timer : Option ℕ)
      (message : Text) (signals : List Signal)
      → handle_transport_error now text (m, (e, seeking timer message signals c)) ≡ (
        m,
        (
          e,
          seeking
              (some (now + c.reconnect_interval_ms))
              text
              ((signals ++ (communication_logged 2 (error text) ∷ []))
                ++ (error_message_changed ∷ []))
              c,
        ),
      )
  unfolding handle_transport_error emit
  error_when_seeking now text m e c timer message signals = refl
