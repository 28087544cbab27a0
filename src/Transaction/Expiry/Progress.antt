-- ===== src/Transaction/Expiry/Progress.antt =====
-- The timer of core/modbus/ModbusTransactionManager.cpp and the attempts that are left.
use modbus_viewer.Prelude.{
  ℕ, suc, ◌+◌, ◌-◌, ◌^◌, ◌≤◌, ◌<◌, ◌≡◌, Bool, true, false, List, [], ◌∷◌, ◌||◌, some, arith,
}
use modbus_viewer.Transaction.{
  PendingRequest, Manager, mark_attempt, soonest, rearm_timeout_timer, has_expired,
}
use modbus_viewer.Transaction.Expiry.{Sweep, sweep, sweep_one}

-- One more than the number of times that the request may still be sent again.
abbrev pub rounds_left : ℕ → PendingRequest → ℕ
rounds_left retry_count r = suc (retry_count + 1 - r.attempts_so_far)

unfoldable pub total_rounds_left : ℕ → List PendingRequest → ℕ
total_rounds_left retry_count [] = 0
total_rounds_left retry_count (r ∷ rs) =
    rounds_left retry_count r + total_rounds_left retry_count rs

unfoldable pub any_expired : ℕ → List PendingRequest → Bool
any_expired now [] = false
any_expired now (r ∷ rs) = has_expired now r || any_expired now rs

rounds-sweep_one :
    (now : ℕ) (m : Manager) (r : PendingRequest) (s : Sweep)
    → total_rounds_left m.retry_count (sweep_one now m r s).kept
      ≤ rounds_left m.retry_count r + total_rounds_left m.retry_count s.kept
unfolding sweep_one total_rounds_left mark_attempt
rounds-sweep_one now m r s = ground arith

rounds-sweep_one_expired :
    (now : ℕ) (m : Manager) (r : PendingRequest) (s : Sweep)
    → has_expired now r ≡ true
    → total_rounds_left m.retry_count (sweep_one now m r s).kept
      < rounds_left m.retry_count r + total_rounds_left m.retry_count s.kept
unfolding sweep_one total_rounds_left mark_attempt
rounds-sweep_one_expired now m r s h = ground arith

rounds-sweep :
    (now : ℕ) (m : Manager) (rs : List PendingRequest)
    → total_rounds_left m.retry_count (sweep now m rs).kept ≤ total_rounds_left m.retry_count rs
unfolding sweep total_rounds_left
rounds-sweep now m [] = omega arith
rounds-sweep now m (r ∷ rs) =
    omega (arith, rounds-sweep now m rs, rounds-sweep_one now m r (sweep now m rs))

rounds-sweep_expired :
    (now : ℕ) (m : Manager) (rs : List PendingRequest)
    → any_expired now rs ≡ true
    → total_rounds_left m.retry_count (sweep now m rs).kept < total_rounds_left m.retry_count rs
unfolding sweep total_rounds_left any_expired
rounds-sweep_expired now m [] h = ground arith
rounds-sweep_expired now m (r ∷ rs) h = ground (
  arith,
  rounds-sweep now m rs,
  rounds-sweep_expired now m rs,
  rounds-sweep_one now m r (sweep now m rs),
  rounds-sweep_one_expired now m r (sweep now m rs),
)

soonest-expired :
    (now later : ℕ) (rs : List PendingRequest)
    → soonest now rs < 2 ^ 31
    → now + soonest now rs ≤ later
    → any_expired later rs ≡ true
unfolding soonest any_expired has_expired
soonest-expired now later [] short reached = absurd (omega arith)
soonest-expired now later (r ∷ rs) short reached = ground (arith, soonest-expired now later rs)

fired-expired :
    (now fired : ℕ) (m : Manager)
    → soonest now m.pending < 2 ^ 31
    → (rearm_timeout_timer now m).timer ≡ some fired
    → any_expired fired m.pending ≡ true
unfolding rearm_timeout_timer
fired-expired now fired m short armed = ground (arith, soonest-expired now fired m.pending)

-- The timer that was armed at one time, while the soonest deadline was less than 2^31 ms away, finds
-- an expired request when it fires, and the attempts that are left become fewer.
pub sweep-progress :
    (now fired : ℕ) (m : Manager)
    → soonest now m.pending < 2 ^ 31
    → (rearm_timeout_timer now m).timer ≡ some fired
    → total_rounds_left m.retry_count (sweep fired m m.pending).kept
      < total_rounds_left m.retry_count m.pending
sweep-progress now fired m short armed =
    rounds-sweep_expired fired m m.pending (fired-expired now fired m short armed)
