-- ===== src/Transaction/Tests.antt =====
-- The theorems about requests in flight, applied to concrete managers.
use modbus_viewer.Prelude.{true, ℕ, ◌≡◌, ◌≢◌, refl, List, [], ◌∷◌, ◌++◌, none, some, arith}
use modbus_viewer.Transaction.{
  FramingMode, PendingRequest, Manager, Wire, Client, tcp, rtu, rearm_timeout_timer, soonest,
}
use modbus_viewer.Transaction.Receive.{handle_data_received}
use modbus_viewer.Transaction.Receive.Streams.{TakesNoBytes, handle_data_received-ne-none}
use modbus_viewer.Transaction.Receive.Matching.{
  no_request, other_request, Answers, answered, all_answered, answer_stream, delivered,
  handle_data_received-Answers,
}
use modbus_viewer.Framing.Rtu.{encode_rtu_frame, is_write_function_code, is_read_function_code}
use modbus_viewer.Pdu.Exceptions.{is_exception_function_code}
use modbus_viewer.Framing.Tcp.{encode_mbap_frame, header_word}
use modbus_viewer.Transaction.Receive.Stuck.{
  IsUnknown, handle_data_received_stuck, handle_data_received_desynchronised,
}
use modbus_viewer.Transaction.Expiry.Progress.{total_rounds_left}
use modbus_viewer.Transaction.Expiry.Draining.{AllBefore, Waits, fire_all, fire_all_drains}
use modbus_viewer.Transaction.Armed.{
  Armed, is_stopped, WireKeepsArmed, ClientKeepsArmed, handle_data_received-Armed,
}

-- The world is the list of what the client is told; the transport and the signals do nothing.
abbrev Log : Type 0
Log = List (ℕ × List ℕ)

abbrev log : ℕ → List ℕ → Log → Log
log id pdu w = w ++ ((id, pdu) ∷ [])

abbrev quiet_wire : Wire Log
quiet_wire = record {
  frame_sent = λ bytes w. w;
  frame_received = λ bytes w. w;
  write = λ bytes s. s;
}

abbrev logging_client : Client Log
logging_client = record {
  response_received = λ id pdu s. (s.0, log id pdu s.1);
  request_failed = λ id why s. (s.0, log id [] s.1);
}

abbrev request : ℕ → ℕ → ℕ → PendingRequest
request id correlation_id attempts = record {
  transaction_id = id;
  unit_id = 1;
  request_pdu = 3 ∷ 0 ∷ 0 ∷ 0 ∷ 1 ∷ [];
  correlation_id = correlation_id;
  attempts_so_far = attempts;
  deadline = 1000;
}

abbrev busy : FramingMode → Manager
busy mode = record {
  transport = some (record { identity = 1; pipelining = true });
  framing_mode = mode;
  timer = some 1000;
  timeout_ms = 1000;
  retry_count = 2;
  next_transaction_id = 3;
  pending = request 1 100 1 ∷ request 2 101 3 ∷ request 3 102 1 ∷ [];
  receive_buffer = [];
}

TakesNoBytes-logging : TakesNoBytes logging_client
unfolding TakesNoBytes
TakesNoBytes-logging id pdu m w = omega arith

handle_data_received-ne-none_example :
    handle_data_received quiet_wire logging_client 5
      (1 ∷ 3 ∷ 2 ∷ 0 ∷ 7 ∷ 0 ∷ 0 ∷ 1 ∷ [])
      (busy rtu, [])
    ≢ none
handle_data_received-ne-none_example =
    handle_data_received-ne-none quiet_wire logging_client TakesNoBytes-logging 5
      (1 ∷ 3 ∷ 2 ∷ 0 ∷ 7 ∷ 0 ∷ 0 ∷ 1 ∷ []) (busy rtu) []

-- The third request is answered before the first, and the second is not answered.
abbrev two_answers : List (PendingRequest × List ℕ)
two_answers = (request 3 102 1, 3 ∷ 2 ∷ 0 ∷ 9 ∷ []) ∷ (request 1 100 1, 0x83 ∷ 2 ∷ []) ∷ []

two_answers-Answers : Answers (request 2 101 3 ∷ []) (busy tcp).pending two_answers
two_answers-Answers =
    answered (request 1 100 1 ∷ request 2 101 3 ∷ []) (request 3 102 1) [] _ _
      (other_request _ _ (ground arith) (other_request _ _ (ground arith) no_request))
      (ground arith) (omega arith)
      (answered [] (request 1 100 1) (request 2 101 3 ∷ []) _ _ no_request (ground arith)
        (omega arith) all_answered)

handle_data_received-Answers_example :
    (after : Manager) × (handle_data_received quiet_wire logging_client 5
        (answer_stream two_answers)
        (busy tcp, [])
      ≡ some (after, delivered quiet_wire log two_answers []))
    × (after.pending ≡ request 2 101 3 ∷ [])
    × (after.receive_buffer ≡ [])
handle_data_received-Answers_example =
    handle_data_received-Answers quiet_wire logging_client log (λ id pdu m w. refl) 5 (busy tcp) []
      (request 2 101 3 ∷ []) two_answers refl refl two_answers-Answers (omega arith)

busy-Waits : Waits 0 (busy tcp)
unfolding AllBefore soonest rearm_timeout_timer
busy-Waits = record {
  armed = refl;
  in_time = (omega arith, (omega arith, (omega arith, tt)));
  short = omega arith;
}

fire_all_drains_example :
    (fire_all quiet_wire logging_client
      (total_rounds_left 2 (busy tcp).pending)
      (busy tcp, [])).0.pending
    ≡ []
fire_all_drains_example =
    fire_all_drains quiet_wire logging_client (λ frame s. refl) (λ id why s. refl) 0 (busy tcp) []
      busy-Waits

WireKeepsArmed-quiet : WireKeepsArmed quiet_wire
unfolding WireKeepsArmed
WireKeepsArmed-quiet bytes s h = h

ClientKeepsArmed-logging : ClientKeepsArmed logging_client
unfolding ClientKeepsArmed Armed
ClientKeepsArmed-logging = (λ id pdu s h. h, λ id why s h. h)

busy-Armed : Armed {W = Log} (busy tcp, [])
unfolding Armed is_stopped
busy-Armed = refl

run_two_answers :
    (after : Manager) × (handle_data_received quiet_wire logging_client 5
        (answer_stream two_answers)
        (busy tcp, [])
      ≡ some (after, delivered quiet_wire log two_answers []))
run_two_answers =
    let (after, run, _, _) =
      handle_data_received-Answers quiet_wire logging_client log (λ id pdu m w. refl) 5 (busy tcp)
        [] (request 2 101 3 ∷ []) two_answers refl refl two_answers-Answers (omega arith) in
    (after, run)

handle_data_received-Armed_example :
    Armed (run_two_answers.0, delivered quiet_wire log two_answers [])
handle_data_received-Armed_example =
    handle_data_received-Armed quiet_wire logging_client WireKeepsArmed-quiet
      ClientKeepsArmed-logging 5 (answer_stream two_answers) (busy tcp, [])
      (run_two_answers.0, delivered quiet_wire log two_answers []) busy-Armed run_two_answers.1

-- Two bytes of noise come before a sound response.
abbrev noisy : Manager
noisy = record (busy rtu) { receive_buffer = 1 ∷ 0 ∷ [] }

zero-IsUnknown : IsUnknown 0
unfolding IsUnknown is_exception_function_code is_write_function_code is_read_function_code
zero-IsUnknown = (refl, refl, refl)

handle_data_received_stuck_example :
    handle_data_received quiet_wire logging_client 5
      (encode_rtu_frame 1 (3 ∷ 2 ∷ 0 ∷ 9 ∷ []))
      (noisy, [])
    ≡ some (
      record noisy {
        receive_buffer = noisy.receive_buffer ++ encode_rtu_frame 1 (3 ∷ 2 ∷ 0 ∷ 9 ∷ []);
      },
      [],
    )
handle_data_received_stuck_example =
    handle_data_received_stuck quiet_wire logging_client 5 1 0 []
      (encode_rtu_frame 1 (3 ∷ 2 ∷ 0 ∷ 9 ∷ [])) noisy [] refl refl refl zero-IsUnknown

-- The protocol id of what is in the buffer is 5.
abbrev wrong_protocol : Manager
wrong_protocol = record (busy tcp) { receive_buffer = 0 ∷ 1 ∷ 0 ∷ 5 ∷ [] }

handle_data_received_desynchronised_example :
    handle_data_received quiet_wire logging_client 5
      (encode_mbap_frame 1 1 (3 ∷ 2 ∷ 0 ∷ 9 ∷ []))
      (wrong_protocol, [])
    ≡ some (
      record wrong_protocol {
        receive_buffer =
            wrong_protocol.receive_buffer ++ encode_mbap_frame 1 1 (3 ∷ 2 ∷ 0 ∷ 9 ∷ []);
      },
      [],
    )
unfolding header_word
handle_data_received_desynchronised_example =
    handle_data_received_desynchronised quiet_wire logging_client 5
      (encode_mbap_frame 1 1 (3 ∷ 2 ∷ 0 ∷ 9 ∷ [])) wrong_protocol [] refl refl (omega arith)
      (λ e. cc)
