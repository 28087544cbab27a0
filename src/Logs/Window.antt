-- ===== src/Logs/Window.antt =====
-- The log of app-lib/CommunicationLogModel.cpp over a run of its operations.
use modbus_viewer.Prelude.{
  ◌-◌, ◌≤◌, ◌≡◌, refl, sym, ap, ◌∙◌, inl, inr, List, [], ◌∷◌, ◌++◌, leb, leb→le, arith, length,
  drop, length-append, Bool-cases,
}
use modbus_viewer.Prelude.Windows.{last, last-append, drop-append_left, last_short, length-last}
use modbus_viewer.Logs.Communication.{CommunicationEntry, max_entries, append, clear_log}

pub data LogOperation : Type 0 where
  appended : CommunicationEntry → LogOperation
  cleared : LogOperation

-- The entries that the operations leave in the log.
abbrev pub run_log : List LogOperation → List CommunicationEntry → List CommunicationEntry
run_log [] entries = entries
run_log (appended entry ∷ operations) entries = run_log operations (append entry entries).0
run_log (cleared ∷ operations) entries = run_log operations (clear_log entries).0

-- What has been appended since the log was last cleared, after what was there before.
abbrev pub since_cleared : List LogOperation → List CommunicationEntry → List CommunicationEntry
since_cleared [] all = all
since_cleared (appended entry ∷ operations) all = since_cleared operations (all ++ (entry ∷ []))
since_cleared (cleared ∷ operations) all = since_cleared operations []

append-last :
    (entry : CommunicationEntry) (entries : List CommunicationEntry)
    → length entries ≤ max_entries
    → (append entry entries).0 ≡ last max_entries (entries ++ (entry ∷ []))
unfolding append
append-last entry entries h =
    let longer = length-append entries (entry ∷ []) in
    elim (Bool-cases (leb max_entries (length entries))) [
      | inl b ↦
          let full : max_entries ≤ length entries = leb→le max_entries (length entries) b in
          let one : 1 ≡ length (entries ++ (entry ∷ [])) - max_entries =
            omega (arith, longer, full) in
          rw b (
            sym (drop-append_left 1 entries (entry ∷ []) (omega (arith, full)))
            ∙ ap (λ k. drop k (entries ++ (entry ∷ []))) one)
      | inr b ↦
          rw b (sym (last_short max_entries (entries ++ (entry ∷ [])) (ground (arith, longer))))
    ]

clear_log-nil : (entries : List CommunicationEntry) → (clear_log entries).0 ≡ []
unfolding clear_log
clear_log-nil [] = refl
clear_log-nil (entry ∷ entries) = refl

-- A log that holds the last 500 of some entries, and is then appended to and cleared in any order,
-- holds the last 500 of the entries since it was last cleared, those it started from included if it
-- was not, in their order.
pub run_log-since_cleared :
    (operations : List LogOperation) (all : List CommunicationEntry)
    → run_log operations (last max_entries all) ≡ last max_entries (since_cleared operations all)
run_log-since_cleared [] all = refl
run_log-since_cleared (appended entry ∷ operations) all =
    ap (run_log operations) (
      append-last entry (last max_entries all) (length-last max_entries all)
      ∙ last-append max_entries all (entry ∷ []))
    ∙ run_log-since_cleared operations (all ++ (entry ∷ []))
run_log-since_cleared (cleared ∷ operations) all =
    ap (run_log operations) (clear_log-nil (last max_entries all))
    ∙ run_log-since_cleared operations []
