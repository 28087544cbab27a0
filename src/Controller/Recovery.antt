-- ===== src/Controller/Recovery.antt =====
-- Losing a connection and finding it again in app-lib/ConnectionController.cpp, over the socket of
-- core/transport/TcpTransport.cpp.
use modbus_viewer.Prelude.{
  ℕ, ◌%◌, ◌≡◌, true, false, List, [], ◌∷◌, ◌++◌, Option, none, some, ◌>>=◌, if◌then◌else◌,
}
use modbus_viewer.Prelude.Texts.{Text}
use modbus_viewer.Coalesce.{PollTarget}
use modbus_viewer.Transaction.{FramingMode, Manager}
use modbus_viewer.Poll.Engine.{PollEngine}
use modbus_viewer.Favorites.Operations.{build_poll_targets}
use modbus_viewer.Controller.State.{
  connected, Controller, Session, Signal, state_changed, polling_changed, lost_emitted,
  restored_emitted, communication_logged, error_message_changed, error,
}
use modbus_viewer.Controller.Polling.{begin_polling}
use modbus_viewer.Controller.Connection.{
  Qt, handle_lost, handle_transport_error, handle_transport_connection_state_changed,
  begin_reconnect_attempt,
}
use modbus_viewer.Controller.Seeking.{stopped}

-- A reconnect attempt that is refused: when it begins, when the socket reports the error, and the
-- error's text.
pub record Refusal : Type 0 where
  pub tried_at : ℕ
  pub refused_at : ℕ
  pub message : Text

-- What the poll loop reads: the favorites, or the range that was started last.
abbrev pub polled : {R : Type 0} → Controller R → List PollTarget
polled c =
    if c.favorites_active
    then build_poll_targets (c.unit_id % 256) c.favorites
    else record {
      unit_id = c.unit_id % 256;
      register_type = c.poll_register_type;
      start_address = c.poll_start_address % 65536;
      quantity = c.poll_quantity % 65536;
    }
      ∷ []

-- The signals, and the error text, once the refusals have been reported.
abbrev pub signals_after : List Refusal → List Signal → List Signal
signals_after [] signals = signals
signals_after (refusal ∷ refusals) signals = signals_after refusals (
    (signals ++ (communication_logged 2 (error refusal.message) ∷ []))
    ++ (error_message_changed ∷ []))

abbrev pub message_after : List Refusal → Text → Text
message_after [] message = message
message_after (refusal ∷ refusals) message = message_after refusals refusal.message

-- The controller as a recovery leaves it.
abbrev pub recovered : {R : Type 0} → List Refusal → Controller R → Controller R
recovered refusals c = record c {
  state = connected;
  reconnect_timer = none;
  resume_polling_on_reconnect = false;
  error_message = message_after refusals c.error_message;
  signals =
      (signals_after refusals
          (((c.signals ++ (polling_changed ∷ [])) ++ (state_changed ∷ [])) ++ (lost_emitted ∷ []))
        ++ (state_changed ∷ []))
      ++ (restored_emitted ∷ []);
}

module _ {R : Type 0} (write : List ℕ → Session R → Session R) (qt : Qt) where
  -- The reconnect attempts that are refused, one after the other.
  abbrev pub try_all : List Refusal → Session R → Option (Session R)
  try_all [] s = some s
  try_all (refusal ∷ refusals) s = begin_reconnect_attempt write qt refusal.tried_at s >>= λ tried.
      try_all refusals (handle_transport_error refusal.refused_at refusal.message tried)

  -- The attempts that are refused, the one that is not, and the connection that the socket reports.
  abbrev pub find_device : List Refusal → ℕ → ℕ → Session R → Option (Session R)
  find_device refusals tried_at found_at s = try_all refusals s >>= λ refused.
      begin_reconnect_attempt write qt tried_at refused
      >>= handle_transport_connection_state_changed write found_at true

  module _
      (connects : (at : ℕ) (host : Text) (port : ℕ) → qt.socket_connect at host port ≡ []) where
    abbrev Recovers : ℕ → List Refusal → ℕ → ℕ → Manager → PollEngine → Controller R → Type 0
    Recovers lost_at refusals tried_at found_at m e c =
        (m1 : Manager) × (find_device refusals tried_at found_at (handle_lost lost_at (m, (e, c)))
          ≡ begin_polling write found_at (polled c) c.favorites_active
              (m1, (stopped e, recovered refusals c)))
        × (m1.framing_mode ≡ FramingMode.tcp)
