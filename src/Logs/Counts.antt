-- ===== src/Logs/Counts.antt =====
-- The counts of app-lib/SessionLogger.cpp over a session.
use modbus_viewer.Prelude.{
  ℕ, ◌+◌, ◌≡◌, refl, sym, ap, append-nil, append_assoc, ◌∙◌, true, List, [], ◌∷◌, ◌++◌, arith,
}
use modbus_viewer.Prelude.Texts.{Text}
use modbus_viewer.Logs.Session.{
  Line, started, ended, communication, connection_lost, reconnected, direction_tag, Logger,
  start_logging, stop_logging, log_communication, record_disconnect, record_reconnect,
}

pub data SessionEvent : Type 0 where
  spoke : Text → ℕ → Text → SessionEvent
  lost found : Text → SessionEvent

abbrev pub log_event : SessionEvent → Logger → Logger
log_event (spoke now direction summary) l = log_communication now direction summary l
log_event (lost now) l = (record_disconnect now l).0
log_event (found now) l = (record_reconnect now l).0

abbrev pub log_events : List SessionEvent → Logger → Logger
log_events [] l = l
log_events (event ∷ events) l = log_events events (log_event event l)

abbrev pub count_lost : List SessionEvent → ℕ
count_lost [] = 0
count_lost (spoke now direction summary ∷ events) = count_lost events
count_lost (lost now ∷ events) = count_lost events + 1
count_lost (found now ∷ events) = count_lost events

abbrev pub count_found : List SessionEvent → ℕ
count_found [] = 0
count_found (spoke now direction summary ∷ events) = count_found events
count_found (lost now ∷ events) = count_found events
count_found (found now ∷ events) = count_found events + 1

-- A logger whose file is open.
abbrev logging : Text → ℕ → ℕ → List Line → Logger
logging path d r lines = record {
  is_logging = true;
  log_file_path = path;
  disconnect_count = d;
  reconnect_count = r;
  lines = lines;
}

-- The lines that a run of events writes, after so many losses and recoveries.
abbrev pub event_lines : ℕ → ℕ → List SessionEvent → List Line
event_lines d r [] = []
event_lines d r (spoke now direction summary ∷ events) =
    communication now (direction_tag direction) summary ∷ event_lines d r events
event_lines d r (lost now ∷ events) = connection_lost now (d + 1) ∷ event_lines (d + 1) r events
event_lines d r (found now ∷ events) = reconnected now (r + 1) ∷ event_lines d (r + 1) events

logged :
    (events : List SessionEvent) (path : Text) (d r : ℕ) (lines : List Line)
    → log_events events (logging path d r lines)
      ≡ logging path
          (d + count_lost events)
          (r + count_found events)
          (lines ++ event_lines d r events)
unfolding log_communication record_disconnect record_reconnect
logged [] path d r lines =
    let same_d : d ≡ d + 0 = omega arith in
    let same_r : r ≡ r + 0 = omega arith in
    ap (λ a. logging path a r lines) same_d
    ∙ ap (λ b. logging path (d + 0) b lines) same_r
    ∙ ap (logging path (d + 0) (r + 0)) (sym (append-nil lines))
logged (spoke now direction summary ∷ events) path d r lines =
    let line = communication now (direction_tag direction) summary in
    logged events path d r (lines ++ (line ∷ []))
    ∙ ap (logging path (d + count_lost events) (r + count_found events))
        (append_assoc lines (line ∷ []) (event_lines d r events))
logged (lost now ∷ events) path d r lines =
    let line = connection_lost now (d + 1) in
    let count : d + 1 + count_lost events ≡ d + (count_lost events + 1) = omega arith in
    logged events path (d + 1) r (lines ++ (line ∷ []))
    ∙ ap (logging path (d + 1 + count_lost events) (r + count_found events))
        (append_assoc lines (line ∷ []) (event_lines (d + 1) r events))
    ∙ ap
        (λ a.
          logging path a (r + count_found events) (lines ++ (line ∷ event_lines (d + 1) r events)))
        count
logged (found now ∷ events) path d r lines =
    let line = reconnected now (r + 1) in
    let count : r + 1 + count_found events ≡ r + (count_found events + 1) = omega arith in
    logged events path d (r + 1) (lines ++ (line ∷ []))
    ∙ ap (logging path (d + count_lost events) (r + 1 + count_found events))
        (append_assoc lines (line ∷ []) (event_lines d (r + 1) events))
    ∙ ap
        (λ b.
          logging path (d + count_lost events) b (lines ++ (line ∷ event_lines d (r + 1) events)))
        count

-- The file of a session that starts, sees some events and stops has the opening line, a line for each
-- event with the losses and recoveries numbered from 1, and a last line with the numbers of losses and
-- of recoveries among the events, whatever session was logged before.
pub stop_logging-log_events :
    (path now : Text) (events : List SessionEvent) (before : Logger)
    → (stop_logging (log_events events (start_logging true path now before).1.0)).0.lines
      ≡ (started now ∷ event_lines 0 0 events)
        ++ (ended (count_lost events) (count_found events) ∷ [])
unfolding start_logging stop_logging
stop_logging-log_events path now events before =
    let run = logged events path 0 0 (started now ∷ []) in
    let losses : 0 + count_lost events ≡ count_lost events = omega arith in
    let recoveries : 0 + count_found events ≡ count_found events = omega arith in
    rw (run, losses, recoveries) refl
