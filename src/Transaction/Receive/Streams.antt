-- ===== src/Transaction/Receive/Streams.antt =====
-- The end of the receiving loops of core/modbus/ModbusTransactionManager.cpp.
use modbus_viewer.Prelude.{
  ℕ, zero, suc, ◌≤◌, ◌<◌, ◌≡◌, ◌≢◌, refl, ap, true, false, List, ◌++◌, Option, none, some, arith,
  length, length-drop, drop, take, Bool,
}
use modbus_viewer.Framing.Rtu.{DecodedRtuFrame, decode_rtu_frame, expected_rtu_response_length}
use modbus_viewer.Framing.Tcp.{DecodedMbapFrame, decode_mbap_frame, mbap_body}
use modbus_viewer.Transaction.{
  FramingMode, PendingRequest, Manager, Wire, Client, is_empty, rearm_timeout_timer, tcp, rtu,
}
use modbus_viewer.Transaction.Receive.{
  find_request, first_request, complete_request, complete_found, take_tcp, consume_tcp_frames,
  dispatch_rtu, take_rtu, rtu_must_wait, consume_rtu_frames, consume, handle_data_received,
}

abbrev buffered : {W : Type 0} → Manager × W → ℕ
buffered (m, w) = length m.receive_buffer

-- The slot on a response leaves no more bytes in the buffer than there were.
unfoldable pub TakesNoBytes : {W : Type 0} → Client W → Type 0
TakesNoBytes {W} client =
    (id : ℕ) (pdu : List ℕ) (m : Manager) (w : W)
    → buffered (client.response_received id pdu (m, w)) ≤ length m.receive_buffer

buffer-rearm :
    (now : ℕ) (m : Manager) → (rearm_timeout_timer now m).receive_buffer ≡ m.receive_buffer
unfolding rearm_timeout_timer
buffer-rearm now m = ground arith

decoded_size :
    (buffer : List ℕ) (d : DecodedMbapFrame)
    → decode_mbap_frame buffer ≡ some d
    → (6 ≤ d.frame_byte_count) × (d.frame_byte_count ≤ length buffer)
unfolding decode_mbap_frame mbap_body
decoded_size buffer d h = ground arith

known_size :
    (buffer : List ℕ)
    → rtu_must_wait buffer ≡ false
    → (1 ≤ expected_rtu_response_length buffer)
      × (expected_rtu_response_length buffer ≤ length buffer)
unfolding rtu_must_wait
known_size buffer h = ground arith

module _ {W : Type 0} (wire : Wire W) (client : Client W) (calm : TakesNoBytes client) where
  buffer-complete_request :
      (now : ℕ) (r : PendingRequest) (others : List PendingRequest) (pdu : List ℕ) (m : Manager)
      (w : W)
      → buffered (complete_request wire client now r others pdu (m, w)) ≤ length m.receive_buffer
  unfolding complete_request TakesNoBytes
  buffer-complete_request now r others pdu m w =
      let rearmed = rearm_timeout_timer now (record m { pending = others }) in
      let same = ap length (buffer-rearm now (record m { pending = others })) in
      let shorter = calm r.correlation_id pdu rearmed w in omega (arith, same, shorter)

  buffer-complete_found :
      (now : ℕ) (found : Option (PendingRequest × List PendingRequest)) (pdu : List ℕ) (m : Manager)
      (w : W)
      → buffered (complete_found wire client now found pdu (m, w)) ≤ length m.receive_buffer
  unfolding complete_found
  buffer-complete_found now none pdu m w = omega arith
  buffer-complete_found now (some (r, others)) pdu m w =
      buffer-complete_request now r others pdu m w

  buffer-take_tcp :
      (now : ℕ) (d : DecodedMbapFrame) (m : Manager) (w : W)
      → decode_mbap_frame m.receive_buffer ≡ some d
      → buffered (take_tcp wire client now d (m, w)) < length m.receive_buffer
  unfolding take_tcp
  buffer-take_tcp now d m w h =
      let (low, high) = decoded_size m.receive_buffer d h in
      let dropped = length-drop d.frame_byte_count m.receive_buffer in
      let found = find_request d.transaction_id m.pending in
      let cut = record m { receive_buffer = drop d.frame_byte_count m.receive_buffer } in
      let frame = take d.frame_byte_count m.receive_buffer in
      let matched = buffer-complete_found now found d.pdu cut (wire.frame_received frame w) in
      omega (arith, low, high, dropped, matched)

  buffer-dispatch_rtu :
      (now : ℕ) (d : Option DecodedRtuFrame) (m : Manager) (w : W)
      → buffered (dispatch_rtu wire client now d (m, w)) ≤ length m.receive_buffer
  unfolding dispatch_rtu
  buffer-dispatch_rtu now none m w = omega arith
  buffer-dispatch_rtu now (some d) m w =
      buffer-complete_found now (first_request m.pending) d.pdu m w

  buffer-take_rtu :
      (now : ℕ) (m : Manager) (w : W)
      → rtu_must_wait m.receive_buffer ≡ false
      → buffered (take_rtu wire client now (expected_rtu_response_length m.receive_buffer) (m, w))
        < length m.receive_buffer
  unfolding take_rtu
  buffer-take_rtu now m w h =
      let size = expected_rtu_response_length m.receive_buffer in
      let (low, high) = known_size m.receive_buffer h in
      let dropped = length-drop size m.receive_buffer in
      let cut = record m { receive_buffer = drop size m.receive_buffer } in
      let frame = take size m.receive_buffer in
      let dispatched =
        buffer-dispatch_rtu now (decode_rtu_frame frame) cut (wire.frame_received frame w) in
      omega (arith, low, high, dropped, dispatched)

  tcp_round :
      (fuel now : ℕ) (s : Manager × W) (idle : Bool) (found : Option DecodedMbapFrame)
      → ((d : DecodedMbapFrame)
          → found ≡ some d
          → consume_tcp_frames wire client fuel now (take_tcp wire client now d s) ≢ none)
      → elim idle [
        | true ↦ some s
        | false ↦ elim found [
          | none ↦ some s
          | some d ↦ consume_tcp_frames wire client fuel now (take_tcp wire client now d s)
        ]
      ]
        ≢ none
  tcp_round fuel now s true found rest = ground arith
  tcp_round fuel now s false none rest = ground arith
  tcp_round fuel now s false (some d) rest = rest d refl

  rtu_round :
      (fuel now : ℕ) (s : Manager × W) (idle wait : Bool)
      → (wait ≡ false
          → consume_rtu_frames wire client fuel now
              (take_rtu wire client now (expected_rtu_response_length s.0.receive_buffer) s)
            ≢ none)
      → elim idle [
        | true ↦ some s
        | false ↦ elim wait [
          | true ↦ some s
          | false ↦
              consume_rtu_frames wire client fuel now
                (take_rtu wire client now (expected_rtu_response_length s.0.receive_buffer) s)
        ]
      ]
        ≢ none
  rtu_round fuel now s true wait rest = ground arith
  rtu_round fuel now s false true rest = ground arith
  rtu_round fuel now s false false rest = rest refl

  consume_tcp-ne-none :
      (fuel now : ℕ) (s : Manager × W)
      → buffered s < fuel
      → consume_tcp_frames wire client fuel now s ≢ none
  unfolding consume_tcp_frames
  consume_tcp-ne-none zero now (m, w) h = absurd (omega arith)
  consume_tcp-ne-none (suc fuel) now (m, w) h =
      tcp_round fuel now (m, w) (is_empty m.pending) (decode_mbap_frame m.receive_buffer)
        (λ d e.
          let shorter = buffer-take_tcp now d m w e in
          consume_tcp-ne-none fuel now (take_tcp wire client now d (m, w))
            (omega (arith, h, shorter)))

  consume_rtu-ne-none :
      (fuel now : ℕ) (s : Manager × W)
      → buffered s < fuel
      → consume_rtu_frames wire client fuel now s ≢ none
  unfolding consume_rtu_frames
  consume_rtu-ne-none zero now (m, w) h = absurd (omega arith)
  consume_rtu-ne-none (suc fuel) now (m, w) h =
      let size = expected_rtu_response_length m.receive_buffer in
      rtu_round fuel now (m, w) (is_empty m.pending) (rtu_must_wait m.receive_buffer)
        (λ e.
          let shorter = buffer-take_rtu now m w e in
          consume_rtu-ne-none fuel now (take_rtu wire client now size (m, w))
            (omega (arith, h, shorter)))

  consume-ne-none :
      (fuel now : ℕ) (mode : FramingMode) (s : Manager × W)
      → buffered s < fuel
      → consume wire client fuel now mode s ≢ none
  unfolding consume
  consume-ne-none fuel now tcp s h = consume_tcp-ne-none fuel now s h
  consume-ne-none fuel now rtu s h = consume_rtu-ne-none fuel now s h

  -- The arrival of bytes is always handled to its end, in both framing modes and whatever the bytes
  -- are, if the slot on a response leaves no more bytes in the buffer than it finds there. The slot
  -- may send requests.
  pub handle_data_received-ne-none :
      (now : ℕ) (bytes : List ℕ) (m : Manager) (w : W)
      → handle_data_received wire client now bytes (m, w) ≢ none
  unfolding handle_data_received
  handle_data_received-ne-none now bytes m w =
      let started = record m { receive_buffer = m.receive_buffer ++ bytes } in
      ground (
        arith,
        consume-ne-none (suc (length (m.receive_buffer ++ bytes))) now m.framing_mode (started, w),
      )
