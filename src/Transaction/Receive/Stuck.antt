-- ===== src/Transaction/Receive/Stuck.antt =====
-- `consumeRtuFrames` and `consumeTcpFrames` of core/modbus/ModbusTransactionManager.cpp on a stream
-- that is out of step.
use modbus_viewer.Prelude.{
  ℕ, suc, ◌≡◌, ◌≢◌, ◌≤◌, none, refl, ap, ◌∙◌, true, false, List, ◌∷◌, ◌++◌, some, arith, length,
}
use modbus_viewer.Pdu.Exceptions.{is_exception_function_code}
use modbus_viewer.Framing.Rtu.{
  is_read_function_code, is_write_function_code, length_by_function, expected_rtu_response_length,
}
use modbus_viewer.Framing.Tcp.{header_word, decode_mbap_frame}
use modbus_viewer.Framing.Tcp.Desync.{decode_mbap_frame_stuck}
use modbus_viewer.Transaction.{FramingMode, Manager, Wire, Client, is_empty, rtu, tcp}
use modbus_viewer.Transaction.Receive.{
  rtu_must_wait, consume_rtu_frames, consume_tcp_frames, consume, handle_data_received,
}

-- The function codes whose responses have no length that the framer knows.
unfoldable pub IsUnknown : ℕ → Type 0
IsUnknown fc =
    (is_exception_function_code fc ≡ false)
    × (is_write_function_code fc ≡ false)
    × (is_read_function_code fc ≡ false)

unknown-must_wait :
    (unit_id fc : ℕ) (rest : List ℕ) → IsUnknown fc → rtu_must_wait (unit_id ∷ fc ∷ rest) ≡ true
unfolding rtu_must_wait expected_rtu_response_length length_by_function IsUnknown
unknown-must_wait unit_id fc rest (e, w, r) = rw (e, w, r) (ground arith)

module _ {W : Type 0} (wire : Wire W) (client : Client W) where
  consume_rtu-wait :
      (fuel now : ℕ) (m : Manager) (w : W)
      → rtu_must_wait m.receive_buffer ≡ true
      → consume_rtu_frames wire client (suc fuel) now (m, w) ≡ some (m, w)
  unfolding consume_rtu_frames
  consume_rtu-wait fuel now m w h = ground arith

  consume_by_rtu :
      (fuel now : ℕ) (mode : FramingMode) (s : Manager × W)
      → mode ≡ rtu
      → consume wire client fuel now mode s ≡ consume_rtu_frames wire client fuel now s
  unfolding consume
  consume_by_rtu fuel now mode s e = rw e refl

  -- On RTU, once the second byte of the buffer is an unknown function code, bytes that arrive while a
  -- request is in flight are only put behind the others: no request is completed, whatever they are.
  pub handle_data_received_stuck :
      (now unit_id fc : ℕ) (rest bytes : List ℕ) (m : Manager) (w : W)
      → m.framing_mode ≡ rtu
      → is_empty m.pending ≡ false
      → m.receive_buffer ≡ unit_id ∷ fc ∷ rest
      → IsUnknown fc
      → handle_data_received wire client now bytes (m, w)
        ≡ some (record m { receive_buffer = m.receive_buffer ++ bytes }, w)
  unfolding handle_data_received
  handle_data_received_stuck now unit_id fc rest bytes m w mode busy buffer unknown =
      let longer = m.receive_buffer ++ bytes in
      let waits : rtu_must_wait longer ≡ true =
        ap (λ b. rtu_must_wait (b ++ bytes)) buffer
        ∙ unknown-must_wait unit_id fc (rest ++ bytes) unknown in
      let held = record m { receive_buffer = longer } in
      rw busy (
        consume_by_rtu (suc (length longer)) now m.framing_mode (held, w) mode
        ∙ consume_rtu-wait (length longer) now held w waits)

  consume_tcp-wait :
      (fuel now : ℕ) (m : Manager) (w : W)
      → decode_mbap_frame m.receive_buffer ≡ none
      → consume_tcp_frames wire client (suc fuel) now (m, w) ≡ some (m, w)
  unfolding consume_tcp_frames
  consume_tcp-wait fuel now m w h = ground arith

  consume_by_tcp :
      (fuel now : ℕ) (mode : FramingMode) (s : Manager × W)
      → mode ≡ tcp
      → consume wire client fuel now mode s ≡ consume_tcp_frames wire client fuel now s
  unfolding consume
  consume_by_tcp fuel now mode s e = rw e refl

  -- On TCP, once the buffer holds at least four bytes whose protocol id is not 0, bytes that arrive
  -- while a request is in flight are only put behind the others: no request is completed, whatever
  -- they are.
  pub handle_data_received_desynchronised :
      (now : ℕ) (bytes : List ℕ) (m : Manager) (w : W)
      → m.framing_mode ≡ tcp
      → is_empty m.pending ≡ false
      → 4 ≤ length m.receive_buffer
      → header_word m.receive_buffer 2 ≢ 0
      → handle_data_received wire client now bytes (m, w)
        ≡ some (record m { receive_buffer = m.receive_buffer ++ bytes }, w)
  unfolding handle_data_received
  handle_data_received_desynchronised now bytes m w mode busy size other =
      let longer = m.receive_buffer ++ bytes in
      let held = record m { receive_buffer = longer } in
      rw busy (
        consume_by_tcp (suc (length longer)) now m.framing_mode (held, w) mode
        ∙ consume_tcp-wait (length longer) now held w
            (decode_mbap_frame_stuck m.receive_buffer bytes size other))
