-- ===== src/Transaction/Receive.antt =====
-- The receiving half of core/modbus/ModbusTransactionManager.cpp: frames are cut off the stream and
-- matched to the requests in flight.
pub mod Streams
pub mod Matching
pub mod Stuck
use modbus_viewer.Prelude.{
  ℕ, zero, suc, Bool, true, false, List, [], ◌∷◌, ◌++◌, Option, none, some, ◌==◌, ltb,
  if◌then◌else◌, length, take, drop,
}
use modbus_viewer.Framing.Rtu.{DecodedRtuFrame, decode_rtu_frame, expected_rtu_response_length}
use modbus_viewer.Framing.Tcp.{DecodedMbapFrame, decode_mbap_frame}
use modbus_viewer.Transaction.{
  FramingMode, PendingRequest, Manager, Wire, Client, is_empty, rearm_timeout_timer, tcp, rtu,
}

-- The first index with the transaction id, as the request there and the list without it.
unfoldable pub find_request :
    ℕ → List PendingRequest → Option (PendingRequest × List PendingRequest)
find_request id [] = none
find_request id (r ∷ rs) = elim (r.transaction_id == id) [
  | true ↦ some (r, rs)
  | false ↦ elim (find_request id rs) [ none ↦ none | some (x, others) ↦ some (x, r ∷ others) ]
]

-- Index 0.
unfoldable pub first_request : List PendingRequest → Option (PendingRequest × List PendingRequest)
first_request [] = none
first_request (r ∷ others) = some (r, others)

unfoldable pub rtu_must_wait : List ℕ → Bool
rtu_must_wait buffer =
    if expected_rtu_response_length buffer == 0
    then true
    else ltb (length buffer) (expected_rtu_response_length buffer)

module _ {W : Type 0} (wire : Wire W) (client : Client W) where
  -- `completeRequest`, for the request found and the list without it.
  unfoldable pub complete_request :
      ℕ → PendingRequest → List PendingRequest → List ℕ → Manager × W → Manager × W
  complete_request now r others pdu (m, w) =
      client.response_received r.correlation_id pdu
        (rearm_timeout_timer now (record m { pending = others }), w)

  -- The request found is completed; a frame without one is discarded.
  unfoldable pub complete_found :
      ℕ → Option (PendingRequest × List PendingRequest) → List ℕ → Manager × W → Manager × W
  complete_found now none pdu s = s
  complete_found now (some (r, others)) pdu s = complete_request now r others pdu s

  unfoldable pub take_tcp : ℕ → DecodedMbapFrame → Manager × W → Manager × W
  take_tcp now d (m, w) = complete_found now (find_request d.transaction_id m.pending) d.pdu (
    record m { receive_buffer = drop d.frame_byte_count m.receive_buffer },
    wire.frame_received (take d.frame_byte_count m.receive_buffer) w,
  )

  -- The `while` loop; `none` means that the fuel ran out.
  unfoldable pub consume_tcp_frames : ℕ → ℕ → Manager × W → Option (Manager × W)
  consume_tcp_frames zero now s = none
  consume_tcp_frames (suc fuel) now s = elim (is_empty s.0.pending) [
    | true ↦ some s
    | false ↦ elim (decode_mbap_frame s.0.receive_buffer) [
      | none ↦ some s
      | some d ↦ consume_tcp_frames fuel now (take_tcp now d s)
    ]
  ]

  unfoldable pub dispatch_rtu : ℕ → Option DecodedRtuFrame → Manager × W → Manager × W
  dispatch_rtu now none s = s
  dispatch_rtu now (some d) (m, w) = complete_found now (first_request m.pending) d.pdu (m, w)

  unfoldable pub take_rtu : ℕ → ℕ → Manager × W → Manager × W
  take_rtu now expected (m, w) =
      let frame = take expected m.receive_buffer in
      dispatch_rtu now (decode_rtu_frame frame)
        (record m { receive_buffer = drop expected m.receive_buffer }, wire.frame_received frame w)

  unfoldable pub consume_rtu_frames : ℕ → ℕ → Manager × W → Option (Manager × W)
  consume_rtu_frames zero now s = none
  consume_rtu_frames (suc fuel) now s = elim (is_empty s.0.pending) [
    | true ↦ some s
    | false ↦ elim (rtu_must_wait s.0.receive_buffer) [
      | true ↦ some s
      | false ↦
          consume_rtu_frames fuel now
            (take_rtu now (expected_rtu_response_length s.0.receive_buffer) s)
    ]
  ]

  unfoldable pub consume : ℕ → ℕ → FramingMode → Manager × W → Option (Manager × W)
  consume fuel now tcp s = consume_tcp_frames fuel now s
  consume fuel now rtu s = consume_rtu_frames fuel now s

  -- Each round of the loops takes bytes off the buffer.
  unfoldable pub handle_data_received : ℕ → List ℕ → Manager × W → Option (Manager × W)
  handle_data_received now bytes (m, w) =
      let buffer = m.receive_buffer ++ bytes in
      let read =
        consume (suc (length buffer)) now m.framing_mode
          (record m { receive_buffer = buffer }, w) in
      if is_empty m.pending then some (m, w) else read
