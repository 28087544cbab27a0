-- ===== src/Logs/Tests.antt =====
-- A log with two entries and a session with one loss.
use modbus_viewer.Prelude.{◌≡◌, true, false, [], ◌∷◌, ◌++◌}
use modbus_viewer.Prelude.Texts.{codes}
use modbus_viewer.Prelude.Windows.{last}
use modbus_viewer.Logs.Communication.{CommunicationEntry, sent, max_entries}
use modbus_viewer.Logs.Window.{appended, cleared, run_log, since_cleared, run_log-since_cleared}
use modbus_viewer.Logs.Session.{Logger, started, ended, start_logging, stop_logging}
use modbus_viewer.Logs.Counts.{lost, found, log_events, event_lines, stop_logging-log_events}

abbrev frame : CommunicationEntry
frame = record { timestamp_text = codes "10:00:00.000"; direction = sent; summary = codes "Tx: 01" }

run_log-since_cleared_example :
    run_log (appended frame ∷ cleared ∷ appended frame ∷ []) (last max_entries [])
    ≡ last max_entries (since_cleared (appended frame ∷ cleared ∷ appended frame ∷ []) [])
run_log-since_cleared_example =
    run_log-since_cleared (appended frame ∷ cleared ∷ appended frame ∷ []) []

abbrev idle : Logger
idle = record {
  is_logging = false;
  log_file_path = [];
  disconnect_count = 4;
  reconnect_count = 2;
  lines = [];
}

stop_logging-log_events_example :
    (stop_logging (
      log_events
        (lost (codes "t1") ∷ found (codes "t2") ∷ [])
        (start_logging true (codes "log.txt") (codes "t0") idle).1.0)).0.lines
    ≡ (started (codes "t0") ∷ event_lines 0 0 (lost (codes "t1") ∷ found (codes "t2") ∷ []))
      ++ (ended 1 1 ∷ [])
stop_logging-log_events_example =
    stop_logging-log_events (codes "log.txt") (codes "t0")
      (lost (codes "t1") ∷ found (codes "t2") ∷ []) idle
