-- ===== src/Transaction/Expiry.antt =====
-- `handleTimeout` of core/modbus/ModbusTransactionManager.cpp: expired requests are sent again or
-- given up.
pub mod Progress
pub mod Draining
pub mod Partition
use modbus_viewer.Prelude.{ℕ, List, [], ◌∷◌, ◌++◌, leb, if◌then◌else◌}
use modbus_viewer.Pdu.Exceptions.{request_timed_out}
use modbus_viewer.Transaction.{
  PendingRequest, Manager, Wire, Client, frame_for, mark_attempt, rearm_timeout_timer, has_expired,
  transmit,
}

-- The loop of `handleTimeout`, from the last request to the first: what stays pending, the frames to
-- send again and the requests that are given up.
pub record Sweep : Type 0 where
  pub kept : List PendingRequest
  pub frames_to_retransmit : List (List ℕ)
  pub expired_and_exhausted : List PendingRequest

unfoldable pub sweep_one : ℕ → Manager → PendingRequest → Sweep → Sweep
sweep_one now m r s =
    if has_expired now r
    then if leb r.attempts_so_far m.retry_count
      then record s {
        kept = mark_attempt now m.timeout_ms r ∷ s.kept;
        frames_to_retransmit =
            s.frames_to_retransmit ++ (frame_for m (mark_attempt now m.timeout_ms r) ∷ []);
      }
      else record s { expired_and_exhausted = s.expired_and_exhausted ++ (r ∷ []) }
    else record s { kept = r ∷ s.kept }

unfoldable pub sweep : ℕ → Manager → List PendingRequest → Sweep
sweep now m [] = record { kept = []; frames_to_retransmit = []; expired_and_exhausted = [] }
sweep now m (r ∷ rs) = sweep_one now m r (sweep now m rs)

module _ {W : Type 0} (wire : Wire W) where
  unfoldable pub transmit_all : List (List ℕ) → Manager × W → Manager × W
  transmit_all [] s = s
  transmit_all (frame ∷ frames) s = transmit_all frames (transmit wire frame s)

  module _ (client : Client W) where
    unfoldable pub fail_all : List PendingRequest → Manager × W → Manager × W
    fail_all [] s = s
    fail_all (r ∷ rs) s =
        fail_all rs (client.request_failed r.correlation_id (request_timed_out r.attempts_so_far) s)

    unfoldable pub handle_timeout : ℕ → Manager × W → Manager × W
    unfolding sweep sweep_one
    handle_timeout now (m, w) =
        let s = sweep now m m.pending in
        let m' = rearm_timeout_timer now (record m { pending = s.kept }) in
        fail_all s.expired_and_exhausted (transmit_all s.frames_to_retransmit (m', w))
