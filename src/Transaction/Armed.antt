-- ===== src/Transaction/Armed.antt =====
-- The timer of core/modbus/ModbusTransactionManager.cpp and the list of requests in flight.
use modbus_viewer.Prelude.{
  ℕ, zero, suc, ◌≡◌, refl, Bool, true, false, List, [], ◌∷◌, ◌++◌, Option, none, some, arith, subst,
  length, Bool-cases, inl, inr,
}
use mathlib.Core.Option.{some-injective}
use modbus_viewer.Pdu.Exceptions.{Message}
use modbus_viewer.Framing.Rtu.{DecodedRtuFrame, expected_rtu_response_length}
use modbus_viewer.Framing.Tcp.{DecodedMbapFrame, decode_mbap_frame}
use modbus_viewer.Transaction.{
  FramingMode, PendingRequest, Manager, Wire, Client, is_empty, rearm_timeout_timer, transmit,
  send_request, enqueue, cancel_all, tcp, rtu,
}
use modbus_viewer.Transaction.Receive.{
  first_request, find_request, complete_request, complete_found, take_tcp, dispatch_rtu, take_rtu,
  rtu_must_wait, consume_tcp_frames, consume_rtu_frames, consume, handle_data_received,
}
use modbus_viewer.Transaction.Expiry.{transmit_all, fail_all, handle_timeout}

unfoldable pub is_stopped : Option ℕ → Bool
is_stopped none = true
is_stopped (some t) = false

unfoldable pub Armed : {W : Type 0} → Manager × W → Type 0
Armed (m, w) = is_empty m.pending ≡ is_stopped m.timer

-- The calls that leave the manager may call back, and keep the invariant when they do.
unfoldable pub WireKeepsArmed : {W : Type 0} → Wire W → Type 0
WireKeepsArmed {W} wire = (bytes : List ℕ) (s : Manager × W) → Armed s → Armed (wire.write bytes s)

unfoldable pub ClientKeepsArmed : {W : Type 0} → Client W → Type 0
ClientKeepsArmed {W} client =
    ((id : ℕ) (pdu : List ℕ) (s : Manager × W)
      → Armed s
      → Armed (client.response_received id pdu s))
    × ((id : ℕ) (why : Message) (s : Manager × W)
        → Armed s
        → Armed (client.request_failed id why s))

pub rearm-Armed :
    {W : Type 0} (now : ℕ) (m : Manager) (w : W) → Armed (rearm_timeout_timer now m, w)
unfolding Armed rearm_timeout_timer is_stopped
rearm-Armed now m w = ground arith

pub cancel_all-Armed : {W : Type 0} (m : Manager) (w : W) → Armed (cancel_all m, w)
unfolding Armed cancel_all is_stopped
cancel_all-Armed m w = refl

module _ {W : Type 0} (wire : Wire W) (client : Client W) (kept_by_wire : WireKeepsArmed wire)
    (kept_by_client : ClientKeepsArmed client) where
  -- Sending a request leaves the timer running exactly while a request is in flight, if the transport
  -- keeps that so when it calls back.
  pub send_request-Armed :
      (now unit_id : ℕ) (pdu : List ℕ) (id : ℕ) (s : Manager × W)
      → Armed (send_request wire now unit_id pdu id s)
  unfolding send_request transmit enqueue WireKeepsArmed
  send_request-Armed now unit_id pdu id (m, w) = kept_by_wire _ _ (rearm-Armed now _ _)

  complete_found-Armed :
      (now : ℕ) (found : Option (PendingRequest × List PendingRequest)) (pdu : List ℕ)
      (s : Manager × W)
      → Armed s
      → Armed (complete_found wire client now found pdu s)
  unfolding complete_found complete_request ClientKeepsArmed
  complete_found-Armed now none pdu s h = h
  complete_found-Armed now (some (r, others)) pdu (m, w) h =
      kept_by_client.0 r.correlation_id pdu _ (rearm-Armed now _ w)

  take_tcp-Armed :
      (now : ℕ) (d : DecodedMbapFrame) (s : Manager × W)
      → Armed s
      → Armed (take_tcp wire client now d s)
  unfolding take_tcp Armed
  take_tcp-Armed now d (m, w) h =
      complete_found-Armed now (find_request d.transaction_id m.pending) d.pdu (_, _) h

  dispatch_rtu-Armed :
      (now : ℕ) (d : Option DecodedRtuFrame) (s : Manager × W)
      → Armed s
      → Armed (dispatch_rtu wire client now d s)
  unfolding dispatch_rtu
  dispatch_rtu-Armed now none s h = h
  dispatch_rtu-Armed now (some d) (m, w) h =
      complete_found-Armed now (first_request m.pending) d.pdu (m, w) h

  take_rtu-Armed :
      (now size : ℕ) (s : Manager × W) → Armed s → Armed (take_rtu wire client now size s)
  unfolding take_rtu Armed
  take_rtu-Armed now size (m, w) h = dispatch_rtu-Armed now _ (_, _) h

  tcp_round-Armed :
      (fuel now : ℕ) (s ended : Manager × W) (idle : Bool) (found : Option DecodedMbapFrame)
      → Armed s
      → ((d : DecodedMbapFrame)
          → consume_tcp_frames wire client fuel now (take_tcp wire client now d s) ≡ some ended
          → Armed ended)
      → elim idle [
        | true ↦ some s
        | false ↦ elim found [
          | none ↦ some s
          | some d ↦ consume_tcp_frames wire client fuel now (take_tcp wire client now d s)
        ]
      ]
        ≡ some ended
      → Armed ended
  tcp_round-Armed fuel now s ended true found h rest run = subst Armed (some-injective _ _ run) h
  tcp_round-Armed fuel now s ended false none h rest run = subst Armed (some-injective _ _ run) h
  tcp_round-Armed fuel now s ended false (some d) h rest run = rest d run

  consume_tcp-Armed :
      (fuel now : ℕ) (s ended : Manager × W)
      → Armed s
      → consume_tcp_frames wire client fuel now s ≡ some ended
      → Armed ended
  unfolding consume_tcp_frames
  consume_tcp-Armed zero now s ended h run = ground arith
  consume_tcp-Armed (suc fuel) now (m, w) ended h run =
      tcp_round-Armed fuel now (m, w) ended (is_empty m.pending)
        (decode_mbap_frame m.receive_buffer) h
        (λ d.
          consume_tcp-Armed fuel now (take_tcp wire client now d (m, w)) ended
            (take_tcp-Armed now d (m, w) h))
        run

  rtu_round-Armed :
      (fuel now size : ℕ) (s ended : Manager × W) (idle wait : Bool)
      → Armed s
      → (consume_rtu_frames wire client fuel now (take_rtu wire client now size s) ≡ some ended
          → Armed ended)
      → elim idle [
        | true ↦ some s
        | false ↦ elim wait [
          | true ↦ some s
          | false ↦ consume_rtu_frames wire client fuel now (take_rtu wire client now size s)
        ]
      ]
        ≡ some ended
      → Armed ended
  rtu_round-Armed fuel now size s ended true wait h rest run =
      subst Armed (some-injective _ _ run) h
  rtu_round-Armed fuel now size s ended false true h rest run =
      subst Armed (some-injective _ _ run) h
  rtu_round-Armed fuel now size s ended false false h rest run = rest run

  consume_rtu-Armed :
      (fuel now : ℕ) (s ended : Manager × W)
      → Armed s
      → consume_rtu_frames wire client fuel now s ≡ some ended
      → Armed ended
  unfolding consume_rtu_frames
  consume_rtu-Armed zero now s ended h run = ground arith
  consume_rtu-Armed (suc fuel) now (m, w) ended h run =
      let size = expected_rtu_response_length m.receive_buffer in
      rtu_round-Armed fuel now size (m, w) ended (is_empty m.pending)
        (rtu_must_wait m.receive_buffer) h
        (consume_rtu-Armed fuel now (take_rtu wire client now size (m, w)) ended
          (take_rtu-Armed now size (m, w) h))
        run

  consume-Armed :
      (fuel now : ℕ) (mode : FramingMode) (s ended : Manager × W)
      → Armed s
      → consume wire client fuel now mode s ≡ some ended
      → Armed ended
  unfolding consume
  consume-Armed fuel now tcp s ended h run = consume_tcp-Armed fuel now s ended h run
  consume-Armed fuel now rtu s ended h run = consume_rtu-Armed fuel now s ended h run

  -- Whatever bytes arrive, a manager whose timer runs exactly while a request is in flight is left in
  -- such a state, if the transport and the slots keep that so when they call back.
  pub handle_data_received-Armed :
      (now : ℕ) (bytes : List ℕ) (s ended : Manager × W)
      → Armed s
      → handle_data_received wire client now bytes s ≡ some ended
      → Armed ended
  unfolding handle_data_received Armed
  handle_data_received-Armed now bytes (m, w) ended h run = elim (Bool-cases (is_empty m.pending)) [
    | inl idle ↦
        let stays : some (m, w) ≡ some ended = ground arith in
        subst Armed (some-injective _ _ stays) h
    | inr busy ↦
        consume-Armed (suc (length (m.receive_buffer ++ bytes))) now m.framing_mode
          (record m { receive_buffer = m.receive_buffer ++ bytes }, w) ended h (ground arith)
  ]

  transmit_all-Armed :
      (frames : List (List ℕ)) (s : Manager × W) → Armed s → Armed (transmit_all wire frames s)
  unfolding transmit_all transmit WireKeepsArmed Armed
  transmit_all-Armed [] s h = h
  transmit_all-Armed (frame ∷ frames) (m, w) h =
      transmit_all-Armed frames _ (kept_by_wire frame (m, wire.frame_sent frame w) h)

  fail_all-Armed :
      (rs : List PendingRequest) (s : Manager × W) → Armed s → Armed (fail_all wire client rs s)
  unfolding fail_all ClientKeepsArmed
  fail_all-Armed [] s h = h
  fail_all-Armed (r ∷ rs) s h = fail_all-Armed rs _ (kept_by_client.1 r.correlation_id _ s h)

  -- A timeout leaves the timer running exactly while a request is in flight, also where writing a
  -- frame again or a slot on a failure calls back, as long as these keep that so.
  pub handle_timeout-Armed : (now : ℕ) (s : Manager × W) → Armed (handle_timeout wire client now s)
  unfolding handle_timeout
  handle_timeout-Armed now (m, w) =
      fail_all-Armed _ _ (transmit_all-Armed _ _ (rearm-Armed now _ w))
