-- ===== src/Logs/Session.antt =====
-- app-lib/SessionLogger.h and app-lib/SessionLogger.cpp. The file is the list of lines written to it, each
-- with what goes into its text; opening the file and reading its path are Qt's.
use modbus_viewer.Prelude.{ℕ, ◌+◌, Bool, true, false, List, [], ◌∷◌, ◌++◌, ◌==◌, if◌then◌else◌}
use modbus_viewer.Prelude.Texts.{Text, codes}

pub data Line : Type 0 where
  started : Text → Line
  ended : ℕ → ℕ → Line
  communication : Text → Text → Text → Line
  connection_lost reconnected : Text → ℕ → Line

pub data LoggerSignal : Type 0 where
  is_logging_changed log_file_path_changed disconnect_count_changed reconnect_count_changed :
      LoggerSignal

pub record Logger : Type 0 where
  pub is_logging : Bool
  pub log_file_path : Text
  pub disconnect_count : ℕ
  pub reconnect_count : ℕ
  pub lines : List Line

abbrev pub direction_tag : ℕ → Text
direction_tag direction =
    if direction == 0 then codes "[Tx]" else if direction == 1 then codes "[Rx]" else codes "[Err]"

abbrev write_line : Line → Logger → Logger
write_line line l = record l { lines = l.lines ++ (line ∷ []) }

-- `opened` is the result of `QFile::open`, and `path` the name of the file.
unfoldable pub start_logging : Bool → Text → Text → Logger → Bool × (Logger × List LoggerSignal)
start_logging opened path now l =
    if opened
    then (
      true,
      (
        record {
          is_logging = true;
          log_file_path = path;
          disconnect_count = 0;
          reconnect_count = 0;
          lines = started now ∷ [];
        },
        is_logging_changed ∷ log_file_path_changed ∷ disconnect_count_changed
            ∷ reconnect_count_changed ∷ [],
      ),
    )
    else (false, (l, []))

unfoldable pub stop_logging : Logger → Logger × List LoggerSignal
stop_logging l =
    if l.is_logging
    then (
      record (write_line (ended l.disconnect_count l.reconnect_count) l) { is_logging = false },
      is_logging_changed ∷ [],
    )
    else (l, [])

unfoldable pub log_communication : Text → ℕ → Text → Logger → Logger
log_communication now direction summary l =
    if l.is_logging then write_line (communication now (direction_tag direction) summary) l else l

unfoldable pub record_disconnect : Text → Logger → Logger × List LoggerSignal
record_disconnect now l =
    let count = l.disconnect_count + 1 in
    if l.is_logging
    then (
      write_line (connection_lost now count) (record l { disconnect_count = count }),
      disconnect_count_changed ∷ [],
    )
    else (l, [])

unfoldable pub record_reconnect : Text → Logger → Logger × List LoggerSignal
record_reconnect now l =
    let count = l.reconnect_count + 1 in
    if l.is_logging
    then (
      write_line (reconnected now count) (record l { reconnect_count = count }),
      reconnect_count_changed ∷ [],
    )
    else (l, [])
