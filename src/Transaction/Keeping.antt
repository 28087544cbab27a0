-- ===== src/Transaction/Keeping.antt =====
-- core/modbus/ModbusTransactionManager.cpp, receiving bytes and timing out: a property of the rest of the
-- program that its slots and the transport keep.
use modbus_viewer.Prelude.{
  ℕ, zero, suc, ◌≡◌, Bool, true, false, List, [], ◌∷◌, ◌++◌, Option, none, some, arith, subst,
  length, Bool-cases, inl, inr,
}
use mathlib.Core.Option.{some-injective}
use modbus_viewer.Pdu.Exceptions.{Message}
use modbus_viewer.Framing.Rtu.{DecodedRtuFrame, decode_rtu_frame, expected_rtu_response_length}
use modbus_viewer.Framing.Tcp.{DecodedMbapFrame, decode_mbap_frame}
use modbus_viewer.Transaction.{
  FramingMode, PendingRequest, Manager, Wire, Client, is_empty, transmit, tcp, rtu,
}
use modbus_viewer.Transaction.Receive.{
  complete_request, complete_found, take_tcp, dispatch_rtu, take_rtu, rtu_must_wait,
  consume_tcp_frames, consume_rtu_frames, consume, handle_data_received,
}
use modbus_viewer.Transaction.Expiry.{transmit_all, fail_all, handle_timeout}

-- A property of the rest of the program that holds again after each call that leaves the manager.
pub record IsKept {W : Type 0} (wire : Wire W) (client : Client W) (P : W → Type 0) : Type 0 where
  pub by_write : (frame : List ℕ) (s : Manager × W) → P s.1 → P (wire.write frame s).1
  pub by_sent : (frame : List ℕ) (w : W) → P w → P (wire.frame_sent frame w)
  pub by_received : (frame : List ℕ) (w : W) → P w → P (wire.frame_received frame w)
  pub by_response :
      (id : ℕ) (pdu : List ℕ) (s : Manager × W) → P s.1 → P (client.response_received id pdu s).1
  pub by_failure :
      (id : ℕ) (why : Message) (s : Manager × W) → P s.1 → P (client.request_failed id why s).1

module _ {W : Type 0} (wire : Wire W) (client : Client W) (P : W → Type 0)
    (k : IsKept wire client P) where
  some_kept : (s t : Manager × W) → some s ≡ some t → P s.1 → P t.1
  some_kept s t q h = subst (λ u. P u.1) (some-injective _ _ q) h

  complete_found_kept :
      (now : ℕ) (found : Option (PendingRequest × List PendingRequest)) (pdu : List ℕ)
      (s : Manager × W)
      → P s.1
      → P (complete_found wire client now found pdu s).1
  unfolding complete_found complete_request
  complete_found_kept now none pdu s h = h
  complete_found_kept now (some (r, others)) pdu (m, w) h = k.by_response r.correlation_id pdu _ h

  take_tcp_kept :
      (now : ℕ) (d : DecodedMbapFrame) (s : Manager × W)
      → P s.1
      → P (take_tcp wire client now d s).1
  unfolding take_tcp
  take_tcp_kept now d (m, w) h = complete_found_kept now _ d.pdu (_, _) (k.by_received _ w h)

  dispatch_rtu_kept :
      (now : ℕ) (d : Option DecodedRtuFrame) (s : Manager × W)
      → P s.1
      → P (dispatch_rtu wire client now d s).1
  unfolding dispatch_rtu
  dispatch_rtu_kept now none s h = h
  dispatch_rtu_kept now (some d) (m, w) h = complete_found_kept now _ d.pdu (m, w) h

  take_rtu_kept : (now size : ℕ) (s : Manager × W) → P s.1 → P (take_rtu wire client now size s).1
  unfolding take_rtu
  take_rtu_kept now size (m, w) h =
      dispatch_rtu_kept now (decode_rtu_frame _) (_, _) (k.by_received _ w h)

  tcp_round_kept :
      (fuel now : ℕ) (s t : Manager × W) (idle : Bool) (found : Option DecodedMbapFrame)
      → P s.1
      → ((d : DecodedMbapFrame)
          → consume_tcp_frames wire client fuel now (take_tcp wire client now d s) ≡ some t
          → P t.1)
      → elim idle [
        | true ↦ some s
        | false ↦ elim found [
          | none ↦ some s
          | some d ↦ consume_tcp_frames wire client fuel now (take_tcp wire client now d s)
        ]
      ]
        ≡ some t
      → P t.1
  tcp_round_kept fuel now s t true found h rest run = some_kept s t run h
  tcp_round_kept fuel now s t false none h rest run = some_kept s t run h
  tcp_round_kept fuel now s t false (some d) h rest run = rest d run

  consume_tcp_kept :
      (fuel now : ℕ) (s t : Manager × W)
      → P s.1
      → consume_tcp_frames wire client fuel now s ≡ some t
      → P t.1
  unfolding consume_tcp_frames
  consume_tcp_kept zero now s t h run = ground arith
  consume_tcp_kept (suc fuel) now (m, w) t h run =
      tcp_round_kept fuel now (m, w) t (is_empty m.pending) (decode_mbap_frame m.receive_buffer) h
        (λ d.
          consume_tcp_kept fuel now (take_tcp wire client now d (m, w)) t
            (take_tcp_kept now d (m, w) h))
        run

  rtu_round_kept :
      (fuel now size : ℕ) (s t : Manager × W) (idle wait : Bool)
      → P s.1
      → (consume_rtu_frames wire client fuel now (take_rtu wire client now size s) ≡ some t → P t.1)
      → elim idle [
        | true ↦ some s
        | false ↦ elim wait [
          | true ↦ some s
          | false ↦ consume_rtu_frames wire client fuel now (take_rtu wire client now size s)
        ]
      ]
        ≡ some t
      → P t.1
  rtu_round_kept fuel now size s t true wait h rest run = some_kept s t run h
  rtu_round_kept fuel now size s t false true h rest run = some_kept s t run h
  rtu_round_kept fuel now size s t false false h rest run = rest run

  consume_rtu_kept :
      (fuel now : ℕ) (s t : Manager × W)
      → P s.1
      → consume_rtu_frames wire client fuel now s ≡ some t
      → P t.1
  unfolding consume_rtu_frames
  consume_rtu_kept zero now s t h run = ground arith
  consume_rtu_kept (suc fuel) now (m, w) t h run =
      let size = expected_rtu_response_length m.receive_buffer in
      rtu_round_kept fuel now size (m, w) t (is_empty m.pending) (rtu_must_wait m.receive_buffer) h
        (consume_rtu_kept fuel now (take_rtu wire client now size (m, w)) t
          (take_rtu_kept now size (m, w) h))
        run

  consume_kept :
      (fuel now : ℕ) (mode : FramingMode) (s t : Manager × W)
      → P s.1
      → consume wire client fuel now mode s ≡ some t
      → P t.1
  unfolding consume
  consume_kept fuel now tcp s t h run = consume_tcp_kept fuel now s t h run
  consume_kept fuel now rtu s t h run = consume_rtu_kept fuel now s t h run

  pub handle_data_received_kept :
      (now : ℕ) (bytes : List ℕ) (s t : Manager × W)
      → P s.1
      → handle_data_received wire client now bytes s ≡ some t
      → P t.1
  unfolding handle_data_received
  handle_data_received_kept now bytes (m, w) t h run = elim (Bool-cases (is_empty m.pending)) [
    | inl idle ↦ let stays : some (m, w) ≡ some t = ground arith in some_kept (m, w) t stays h
    | inr busy ↦
        consume_kept (suc (length (m.receive_buffer ++ bytes))) now m.framing_mode
          (record m { receive_buffer = m.receive_buffer ++ bytes }, w) t h (ground arith)
  ]

  transmit_all_kept :
      (frames : List (List ℕ)) (s : Manager × W) → P s.1 → P (transmit_all wire frames s).1
  unfolding transmit_all transmit
  transmit_all_kept [] s h = h
  transmit_all_kept (frame ∷ frames) (m, w) h =
      transmit_all_kept frames _
        (k.by_write frame (m, wire.frame_sent frame w) (k.by_sent frame w h))

  fail_all_kept :
      (rs : List PendingRequest) (s : Manager × W) → P s.1 → P (fail_all wire client rs s).1
  unfolding fail_all
  fail_all_kept [] s h = h
  fail_all_kept (r ∷ rs) s h = fail_all_kept rs _ (k.by_failure r.correlation_id _ s h)

  pub handle_timeout_kept :
      (now : ℕ) (s : Manager × W) → P s.1 → P (handle_timeout wire client now s).1
  unfolding handle_timeout
  handle_timeout_kept now (m, w) h = fail_all_kept _ _ (transmit_all_kept _ _ h)
