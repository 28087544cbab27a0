-- ===== src/Transaction/Expiry/Partition.antt =====
-- Which requests a timeout keeps, sends again and gives up.
use modbus_viewer.Prelude.{ℕ, ◌+◌, Bool, ◌&&◌, not, List, [], ◌∷◌, ◌++◌, leb, if◌then◌else◌}
use modbus_viewer.Framing.Rtu.{encode_rtu_frame}
use modbus_viewer.Framing.Tcp.{encode_mbap_frame}
use modbus_viewer.Transaction.{FramingMode, PendingRequest, Manager, tcp, rtu}

-- The deadline has passed and the request was sent as often as the retry count allows.
abbrev pub is_exhausted : ℕ → ℕ → PendingRequest → Bool
is_exhausted now retry_count r = leb r.deadline now && not (leb r.attempts_so_far retry_count)

abbrev pub is_retried : ℕ → ℕ → PendingRequest → Bool
is_retried now retry_count r = leb r.deadline now && leb r.attempts_so_far retry_count

unfoldable pub select : (PendingRequest → Bool) → List PendingRequest → List PendingRequest
select test [] = []
select test (r ∷ rs) = if test r then select test rs ++ (r ∷ []) else select test rs

-- One more attempt, and a new deadline.
abbrev pub sent_again : ℕ → Manager → PendingRequest → PendingRequest
sent_again now m r = record r {
  attempts_so_far = r.attempts_so_far + 1;
  deadline = now + m.timeout_ms;
}

unfoldable pub survivors : ℕ → Manager → List PendingRequest → List PendingRequest
survivors now m [] = []
survivors now m (r ∷ rs) =
    if is_exhausted now m.retry_count r
    then survivors now m rs
    else (if leb r.deadline now then sent_again now m r else r) ∷ survivors now m rs

-- The bytes on the wire, by the framing that is set.
unfoldable pub frame_by : FramingMode → PendingRequest → List ℕ
frame_by tcp r = encode_mbap_frame r.transaction_id r.unit_id r.request_pdu
frame_by rtu r = encode_rtu_frame r.unit_id r.request_pdu

unfoldable pub retransmission : Manager → PendingRequest → List ℕ
retransmission m r = frame_by m.framing_mode r
