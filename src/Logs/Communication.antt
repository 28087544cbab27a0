-- ===== src/Logs/Communication.antt =====
-- app-lib/CommunicationLogModel.h and app-lib/CommunicationLogModel.cpp. The time of an entry is the text
-- that `QTime` gives.
use modbus_viewer.Prelude.{
  ℕ, List, [], ◌∷◌, ◌++◌, none, some, leb, if◌then◌else◌, length, get_elem?, drop,
}
use modbus_viewer.Prelude.Texts.{Text, is_empty}

pub data Direction : Type 0 where
  sent received failure : Direction

pub record CommunicationEntry : Type 0 where
  pub timestamp_text : Text
  pub direction : Direction
  pub summary : Text

abbrev pub max_entries : ℕ
max_entries = 500

pub data LogSignal : Type 0 where
  entry_removed entry_inserted : ℕ → LogSignal
  log_reset : LogSignal

unfoldable pub append :
    CommunicationEntry → List CommunicationEntry → List CommunicationEntry × List LogSignal
append entry entries =
    let kept = if leb max_entries (length entries) then drop 1 entries else entries in
    (
      kept ++ (entry ∷ []),
      (if leb max_entries (length entries) then entry_removed 0 ∷ [] else [])
          ++ (entry_inserted (length kept) ∷ []),
    )

unfoldable pub clear_log : List CommunicationEntry → List CommunicationEntry × List LogSignal
clear_log entries = if is_empty entries then (entries, []) else ([], log_reset ∷ [])

pub data LogRole : Type 0 where
  timestamp_role direction_role summary_role other_role : LogRole

pub data LogDatum : Type 0 where
  no_datum : LogDatum
  shown_text : Text → LogDatum
  shown_direction : Direction → LogDatum

abbrev log_row_count : List CommunicationEntry → ℕ
log_row_count entries = length entries

abbrev entry_datum : CommunicationEntry → LogRole → LogDatum
entry_datum entry timestamp_role = shown_text entry.timestamp_text
entry_datum entry direction_role = shown_direction entry.direction
entry_datum entry summary_role = shown_text entry.summary
entry_datum entry other_role = no_datum

abbrev log_data : List CommunicationEntry → ℕ → LogRole → LogDatum
log_data entries row role = elim (get_elem? entries row) [
  | none ↦ no_datum
  | some entry ↦ entry_datum entry role
]
