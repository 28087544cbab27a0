-- ===== src/Controller/State.antt =====
-- The state of app-lib/ConnectionController.h. The integers that the user interface sets are natural
-- numbers. Slots on the signals belong to the user interface: they are recorded.
use modbus_viewer.Prelude.{ℕ, Bool, true, false, List, [], ◌∷◌, ◌++◌, Option, if◌then◌else◌}
use modbus_viewer.Prelude.Texts.{Text}
use modbus_viewer.Model.{RegisterType}
use modbus_viewer.Pdu.Exceptions.{Message}
use modbus_viewer.Transaction.{Manager}
use modbus_viewer.Poll.Engine.{PollEngine}
use modbus_viewer.Favorites.Entries.{Favorites}
use modbus_viewer.Favorites.Operations.{FavoritesSignal}

pub data ConnectionState : Type 0 where
  disconnected connecting connected connection_lost failed : ConnectionState

abbrev pub state_eq : ConnectionState → ConnectionState → Bool
state_eq disconnected disconnected = true
state_eq connecting connecting = true
state_eq connected connected = true
state_eq connection_lost connection_lost = true
state_eq failed failed = true
state_eq a b = false

pub data ConnectionType : Type 0 where
  by_tcp by_rtu : ConnectionType

abbrev pub connection_type_eq : ConnectionType → ConnectionType → Bool
connection_type_eq by_tcp by_tcp = true
connection_type_eq by_tcp by_rtu = false
connection_type_eq by_rtu by_tcp = false
connection_type_eq by_rtu by_rtu = true

pub data PendingOperation : Type 0 where
  no_operation read_holding_registers read_input_registers read_coils read_discrete_inputs
        write_single_register write_single_coil :
      PendingOperation

-- The texts of `communicationLogged`, with the bytes that they show.
pub data LogLine : Type 0 where
  tx rx : List ℕ → LogLine
  timeout : Message → LogLine
  error : Text → LogLine

pub data Signal : Type 0 where
  state_changed lost_emitted restored_emitted error_message_changed can_connect_changed host_changed
        port_changed unit_id_changed timeout_ms_changed retry_count_changed connection_type_changed
        polling_changed poll_interval_ms_changed reconnect_interval_ms_changed port_name_changed
        baud_rate_changed data_bits_changed parity_changed stop_bits_changed :
      Signal
  holding_registers_read : ℕ → List ℕ → Signal
  bits_read : ℕ → List Bool → Signal
  single_register_written : ℕ → ℕ → Signal
  single_coil_written : ℕ → Bool → Signal
  operation_failed register_read_failed : Message → Signal
  communication_logged : ℕ → LogLine → Signal
  favorites_emitted : List FavoritesSignal → Signal

-- `favorites` is the list of the user interface, and `favorites_active` says that
-- `m_activeFavoritesModel` points to it. `serial_open` is `m_port.isOpen()`, and `reconnect_timer` the
-- time at which the timer fires. `broken` is set when the list reads outside its values.
pub record Controller (R : Type 0) : Type 0 where
  pub state : ConnectionState
  pub error_message : Text
  pub connection_type : ConnectionType
  pub host : Text
  pub port : ℕ
  pub unit_id : ℕ
  pub timeout_ms : ℕ
  pub retry_count : ℕ
  pub poll_interval_ms : ℕ
  pub reconnect_interval_ms : ℕ
  pub reconnect_timer : Option ℕ
  pub resume_polling_on_reconnect : Bool
  pub poll_register_type : RegisterType
  pub poll_start_address : ℕ
  pub poll_quantity : ℕ
  pub favorites : Favorites R
  pub favorites_active : Bool
  pub port_name : Text
  pub baud_rate : ℕ
  pub data_bits : ℕ
  pub parity : ℕ
  pub stop_bits : ℕ
  pub pending_operation : PendingOperation
  pub pending_start_address : ℕ
  pub pending_quantity : ℕ
  pub pending_correlation_id : ℕ
  pub serial_open : Bool
  pub broken : Bool
  pub signals : List Signal

-- The controller with its members, the transaction manager and the poll engine.
abbrev pub Session : Type 0 → Type 0
Session R = Manager × (PollEngine × Controller R)

module _ {R : Type 0} where
  unfoldable pub emit : Signal → Controller R → Controller R
  emit signal c = record c { signals = c.signals ++ (signal ∷ []) }

  unfoldable pub set_state : ConnectionState → Controller R → Controller R
  set_state new_state c =
      if state_eq c.state new_state then c else emit state_changed (record c { state = new_state })

  abbrev pub with_controller : (Controller R → Controller R) → Session R → Session R
  with_controller f (m, (e, c)) = (m, (e, f c))
