-- ===== src/Transaction.antt =====
-- core/modbus/ModbusTransactionManager.h and core/modbus/ModbusTransactionManager.cpp: requests in
-- flight, with the calls that send, cancel and set. The children receive responses and expire requests.
pub mod Receive
pub mod Expiry
pub mod Armed
pub mod Keeping
mod Tests
use modbus_viewer.Prelude.{
  ℕ, zero, suc, ◌+◌, ◌-◌, ◌%◌, ◌^◌, min, max, Bool, true, false, List, [], ◌∷◌, ◌++◌, Option, none,
  some, ◌==◌, ltb, leb, if◌then◌else◌, length, take, drop,
}
use modbus_viewer.Pdu.Exceptions.{Message, request_timed_out}
use modbus_viewer.Framing.Rtu.{
  DecodedRtuFrame, encode_rtu_frame, decode_rtu_frame, expected_rtu_response_length,
}
use modbus_viewer.Framing.Tcp.{DecodedMbapFrame, encode_mbap_frame, decode_mbap_frame}

pub data FramingMode : Type 0 where
  tcp rtu : FramingMode

-- What the manager sees of an `ITransport`: which object it is, and `supportsPipelining()`.
pub record Transport : Type 0 where
  pub identity : ℕ
  pub pipelining : Bool

pub record PendingRequest : Type 0 where
  pub transaction_id : ℕ
  pub unit_id : ℕ
  pub request_pdu : List ℕ
  pub correlation_id : ℕ
  pub attempts_so_far : ℕ
  pub deadline : ℕ

-- `timer` is the time at which the timer fires, if it is active. Times are in milliseconds.
pub record Manager : Type 0 where
  pub transport : Option Transport
  pub framing_mode : FramingMode
  pub timer : Option ℕ
  pub timeout_ms : ℕ
  pub retry_count : ℕ
  pub next_transaction_id : ℕ
  pub pending : List PendingRequest
  pub receive_buffer : List ℕ

-- The rest of the program, with a state `W`. `write` is the transport's, which may call back before
-- it returns; the slots on the two frame signals only record the bytes.
pub record Wire (W : Type 0) : Type 0 where
  pub frame_sent : List ℕ → W → W
  pub frame_received : List ℕ → W → W
  pub write : List ℕ → Manager × W → Manager × W

-- The slots that are connected to the manager's results. They may call the manager.
pub record Client (W : Type 0) : Type 0 where
  pub response_received : ℕ → List ℕ → Manager × W → Manager × W
  pub request_failed : ℕ → Message → Manager × W → Manager × W

abbrev same_transport : Option Transport → Option Transport → Bool
same_transport none none = true
same_transport none (some u) = false
same_transport (some t) none = false
same_transport (some t) (some u) = t.identity == u.identity

pub set_transport : Option Transport → Manager → Manager
set_transport t m =
    if same_transport m.transport t then m else record m { transport = t; receive_buffer = [] }

unfoldable pub set_framing_mode : FramingMode → Manager → Manager
set_framing_mode mode m = record m { framing_mode = mode }

pub set_timeout_ms : ℕ → Manager → Manager
set_timeout_ms t m = record m { timeout_ms = t }

pub set_retry_count : ℕ → Manager → Manager
set_retry_count n m = record m { retry_count = n }

abbrev pub in_flight_count : Manager → ℕ
in_flight_count m = length m.pending

abbrev is_empty {ℓ} : {A : Type ℓ} → List A → Bool
is_empty [] = true
is_empty (x ∷ xs) = false

abbrev has_request_in_flight : Manager → Bool
has_request_in_flight m = if is_empty m.pending then false else true

unfoldable pub supports_pipelining : Manager → Bool
supports_pipelining m = elim m.transport [ none ↦ false | some t ↦ t.pipelining ]

unfoldable pub cancel_all : Manager → Manager
cancel_all m = record m { pending = []; receive_buffer = []; timer = none }

unfoldable pub frame_for : Manager → PendingRequest → List ℕ
frame_for m r = elim m.framing_mode [
  | tcp ↦ encode_mbap_frame r.transaction_id r.unit_id r.request_pdu
  | rtu ↦ encode_rtu_frame r.unit_id r.request_pdu
]

unfoldable pub mark_attempt : ℕ → ℕ → PendingRequest → PendingRequest
mark_attempt now timeout_ms r = record r {
  attempts_so_far = r.attempts_so_far + 1;
  deadline = now + timeout_ms;
}

-- `remainingTime()` is 0 once the deadline has passed.
unfoldable pub soonest : ℕ → List PendingRequest → ℕ
soonest now [] = 2 ^ 63 - 1
soonest now (r ∷ rs) = min (r.deadline - now) (soonest now rs)

unfoldable pub rearm_timeout_timer : ℕ → Manager → Manager
rearm_timeout_timer now m =
    if is_empty m.pending
    then record m { timer = none }
    else record m { timer = some (now + max 1 (min (soonest now m.pending) (2 ^ 31 - 1))) }

unfoldable pub has_expired : ℕ → PendingRequest → Bool
has_expired now r = leb r.deadline now

unfoldable pub new_request : ℕ → ℕ → List ℕ → ℕ → Manager → PendingRequest
new_request now unit_id pdu correlation_id m = mark_attempt now m.timeout_ms (record {
  transaction_id = (m.next_transaction_id + 1) % 65536;
  unit_id = unit_id;
  request_pdu = pdu;
  correlation_id = correlation_id;
  attempts_so_far = 0;
  deadline = 0;
})

unfoldable pub enqueue : ℕ → PendingRequest → Manager → Manager
enqueue now r m =
    rearm_timeout_timer now
      (record m { next_transaction_id = r.transaction_id; pending = m.pending ++ (r ∷ []) })

module _ {W : Type 0} (wire : Wire W) where
  unfoldable pub transmit : List ℕ → Manager × W → Manager × W
  transmit frame (m, w) = wire.write frame (m, wire.frame_sent frame w)

  unfoldable pub send_request : ℕ → ℕ → List ℕ → ℕ → Manager × W → Manager × W
  unfolding transmit new_request enqueue mark_attempt frame_for
  send_request now unit_id pdu correlation_id (m, w) =
      let r = new_request now unit_id pdu correlation_id m in
      let m' = enqueue now r m in transmit (frame_for m' r) (m', w)
