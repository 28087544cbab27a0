-- ===== src/Controller/Settings.antt =====
-- The setters of app-lib/ConnectionController.cpp.
use modbus_viewer.Prelude.{ℕ, Bool, not, ◌==◌, if◌then◌else◌}
use modbus_viewer.Prelude.Texts.{Text, text_eq, is_empty}
use modbus_viewer.Poll.Engine.{set_interval_ms}
use modbus_viewer.Controller.State.{
  ConnectionType, by_tcp, by_rtu, connection_type_eq, Controller, Session, emit, host_changed,
  can_connect_changed, port_changed, unit_id_changed, timeout_ms_changed, retry_count_changed,
  connection_type_changed, poll_interval_ms_changed, reconnect_interval_ms_changed,
  port_name_changed, baud_rate_changed, data_bits_changed, parity_changed, stop_bits_changed,
}

module _ {R : Type 0} where
  unfoldable can_connect : Controller R → Bool
  can_connect c = elim c.connection_type [
    | by_tcp ↦ not (is_empty c.host)
    | by_rtu ↦ not (is_empty c.port_name)
  ]

  unfoldable set_host : Text → Controller R → Controller R
  set_host host c =
      if text_eq c.host host
      then c
      else emit can_connect_changed (emit host_changed (record c { host = host }))

  unfoldable set_port : ℕ → Controller R → Controller R
  set_port port c = if c.port == port then c else emit port_changed (record c { port = port })

  unfoldable set_unit_id : ℕ → Controller R → Controller R
  set_unit_id unit_id c =
      if c.unit_id == unit_id then c else emit unit_id_changed (record c { unit_id = unit_id })

  unfoldable set_timeout : ℕ → Controller R → Controller R
  set_timeout timeout_ms c =
      if c.timeout_ms == timeout_ms
      then c
      else emit timeout_ms_changed (record c { timeout_ms = timeout_ms })

  unfoldable set_retries : ℕ → Controller R → Controller R
  set_retries retry_count c =
      if c.retry_count == retry_count
      then c
      else emit retry_count_changed (record c { retry_count = retry_count })

  -- Live, if a poll loop is running.
  unfoldable set_poll_interval_ms : ℕ → ℕ → Session R → Session R
  set_poll_interval_ms now interval_ms (m, (e, c)) =
      if c.poll_interval_ms == interval_ms then (m, (e, c)) else (
        m,
        (
          set_interval_ms now interval_ms e,
          emit poll_interval_ms_changed (record c { poll_interval_ms = interval_ms }),
        ),
      )

  unfoldable set_reconnect_interval_ms : ℕ → Controller R → Controller R
  set_reconnect_interval_ms interval_ms c =
      if c.reconnect_interval_ms == interval_ms
      then c
      else emit reconnect_interval_ms_changed (record c { reconnect_interval_ms = interval_ms })

  unfoldable set_connection_type : ConnectionType → Controller R → Controller R
  set_connection_type type c =
      if connection_type_eq c.connection_type type
      then c
      else emit can_connect_changed
          (emit connection_type_changed (record c { connection_type = type }))

  unfoldable set_port_name : Text → Controller R → Controller R
  set_port_name port_name c =
      if text_eq c.port_name port_name
      then c
      else emit can_connect_changed (emit port_name_changed (record c { port_name = port_name }))

  unfoldable set_baud_rate : ℕ → Controller R → Controller R
  set_baud_rate baud_rate c =
      if c.baud_rate == baud_rate
      then c
      else emit baud_rate_changed (record c { baud_rate = baud_rate })

  unfoldable set_data_bits : ℕ → Controller R → Controller R
  set_data_bits data_bits c =
      if c.data_bits == data_bits
      then c
      else emit data_bits_changed (record c { data_bits = data_bits })

  unfoldable set_parity : ℕ → Controller R → Controller R
  set_parity parity c =
      if c.parity == parity then c else emit parity_changed (record c { parity = parity })

  unfoldable set_stop_bits : ℕ → Controller R → Controller R
  set_stop_bits stop_bits c =
      if c.stop_bits == stop_bits
      then c
      else emit stop_bits_changed (record c { stop_bits = stop_bits })
