-- ===== src/Transaction/Receive/Matching.antt =====
-- `consumeTcpFrames` of core/modbus/ModbusTransactionManager.cpp on a run of responses.
use modbus_viewer.Prelude.{
  ℕ, zero, suc, ◌≤◌, ◌<◌, ◌≡◌, ◌≢◌, refl, ap, ◌∙◌, false, List, [], ◌∷◌, ◌++◌, Option, some, arith,
  length, length-append, take-append_exact, drop-append_exact,
}
use modbus_viewer.Bytes.{IsWord, append_u16, u16_bytes}
use modbus_viewer.Framing.Tcp.{DecodedMbapFrame, decode_mbap_frame, encode_mbap_frame}
use modbus_viewer.Framing.Tcp.RoundTrip.{decode-encode_mbap_frame}
use modbus_viewer.Transaction.{
  FramingMode, PendingRequest, Manager, Wire, Client, is_empty, rearm_timeout_timer, tcp,
}
use modbus_viewer.Transaction.Receive.{
  find_request, complete_request, complete_found, take_tcp, consume_tcp_frames, consume,
  handle_data_received,
}

pub data NoneHas (id : ℕ) : List PendingRequest → Type 0 where
  no_request : NoneHas id []
  other_request :
      (r : PendingRequest) (rs : List PendingRequest)
      → r.transaction_id ≢ id
      → NoneHas id rs
      → NoneHas id (r ∷ rs)

-- A run of responses answers requests in flight, each the first one with its transaction id, and
-- leaves the others.
pub data Answers (rest : List PendingRequest)
    : List PendingRequest → List (PendingRequest × List ℕ) → Type 0 where
  all_answered : Answers rest rest []
  answered :
      (before : List PendingRequest) (r : PendingRequest) (after : List PendingRequest)
      (pdu : List ℕ) (answers : List (PendingRequest × List ℕ))
      → NoneHas r.transaction_id before
      → IsWord r.transaction_id
      → length pdu < 65535
      → Answers rest (before ++ after) answers
      → Answers rest (before ++ (r ∷ after)) ((r, pdu) ∷ answers)

abbrev pub answer_frame : PendingRequest → List ℕ → List ℕ
answer_frame r pdu = encode_mbap_frame r.transaction_id r.unit_id pdu

unfoldable pub answer_stream : List (PendingRequest × List ℕ) → List ℕ
answer_stream [] = []
answer_stream ((r, pdu) ∷ answers) = answer_frame r pdu ++ answer_stream answers

pub find_request-first :
    (r : PendingRequest) (before after : List PendingRequest)
    → NoneHas r.transaction_id before
    → find_request r.transaction_id (before ++ (r ∷ after)) ≡ some (r, before ++ after)
unfolding find_request
find_request-first r [] after no_request = ground arith
find_request-first r (x ∷ before) after (other_request _ _ h hs) =
    ground (arith, find_request-first r before after hs)

is_empty-middle :
    (before : List PendingRequest) (r : PendingRequest) (after : List PendingRequest)
    → is_empty (before ++ (r ∷ after)) ≡ false
is_empty-middle [] r after = refl
is_empty-middle (x ∷ before) r after = refl

is_empty-answered :
    {rest pending : List PendingRequest} {answers : List (PendingRequest × List ℕ)}
    → Answers rest pending answers
    → 0 < length answers
    → is_empty pending ≡ false
is_empty-answered all_answered h = absurd (omega arith)
is_empty-answered (answered before r after _ _ _ _ _ _) h = is_empty-middle before r after

length-answer_stream :
    (answers : List (PendingRequest × List ℕ)) → length answers ≤ length (answer_stream answers)
unfolding answer_stream encode_mbap_frame append_u16 u16_bytes
length-answer_stream [] = omega arith
length-answer_stream ((r, pdu) ∷ answers) = omega (
  arith,
  length-append (answer_frame r pdu) (answer_stream answers),
  length-answer_stream answers,
)

-- Rearming changes nothing but the timer.
rearmed_form :
    (now : ℕ) (m : Manager) (p : List PendingRequest) (b : List ℕ)
    → (t : Option ℕ) × (rearm_timeout_timer now (record m { pending = p; receive_buffer = b })
        ≡ record m { timer = t; pending = p; receive_buffer = b })
unfolding rearm_timeout_timer
rearmed_form now m [] b = (_, refl)
rearmed_form now m (r ∷ p) b = (_, refl)

module _ {W : Type 0} (wire : Wire W) (deliver : ℕ → List ℕ → W → W) where
  -- What the rest of the program is told, response by response.
  unfoldable pub delivered : List (PendingRequest × List ℕ) → W → W
  delivered [] w = w
  delivered ((r, pdu) ∷ answers) w =
      delivered answers (deliver r.correlation_id pdu (wire.frame_received (answer_frame r pdu) w))

module _ {W : Type 0} (wire : Wire W) (client : Client W) (deliver : ℕ → List ℕ → W → W)
    (records : (id : ℕ) (pdu : List ℕ) (m : Manager) (w : W)
      → client.response_received id pdu (m, w) ≡ (m, deliver id pdu w)) where
  take_tcp-answer :
      (now : ℕ) (m : Manager) (w : W) (before : List PendingRequest) (r : PendingRequest)
      (after : List PendingRequest) (pdu tail : List ℕ)
      → NoneHas r.transaction_id before
      → (t : Option ℕ) × (take_tcp wire client now
            (record {
              transaction_id = r.transaction_id;
              unit_id = r.unit_id;
              pdu = pdu;
              frame_byte_count = length (answer_frame r pdu);
            })
            (
              record m {
                pending = before ++ (r ∷ after);
                receive_buffer = answer_frame r pdu ++ tail;
              },
              w,
            )
          ≡ (
            record m { timer = t; pending = before ++ after; receive_buffer = tail },
            deliver r.correlation_id pdu (wire.frame_received (answer_frame r pdu) w),
          ))
  unfolding take_tcp complete_found complete_request
  take_tcp-answer now m w before r after pdu tail h =
      let (t, e) = rearmed_form now m (before ++ after) tail in
      let said = deliver r.correlation_id pdu (wire.frame_received (answer_frame r pdu) w) in
      (
        t,
        rw
            (
              find_request-first r before after h,
              take-append_exact (answer_frame r pdu) tail,
              drop-append_exact (answer_frame r pdu) tail,
            )
            (records r.correlation_id pdu _ _ ∙ ap (λ x. (x, said)) e),
      )

  consume_idle :
      (fuel now : ℕ) (m : Manager) (w : W)
      → consume_tcp_frames wire client
          (suc fuel)
          now
          (record m { pending = []; receive_buffer = [] }, w)
        ≡ some (record m { pending = []; receive_buffer = [] }, w)
  unfolding consume_tcp_frames
  consume_idle fuel now m w = refl

  consume_nothing :
      (fuel now : ℕ) (m : Manager) (w : W) (r : PendingRequest) (rest : List PendingRequest)
      → consume_tcp_frames wire client
          (suc fuel)
          now
          (record m { pending = r ∷ rest; receive_buffer = [] }, w)
        ≡ some (record m { pending = r ∷ rest; receive_buffer = [] }, w)
  unfolding consume_tcp_frames decode_mbap_frame
  consume_nothing fuel now m w r rest = refl

  consume_by_tcp :
      (fuel now : ℕ) (mode : FramingMode) (s : Manager × W)
      → mode ≡ tcp
      → consume wire client fuel now mode s ≡ consume_tcp_frames wire client fuel now s
  unfolding consume
  consume_by_tcp fuel now mode s e = rw e refl

  consume_round :
      (fuel now : ℕ) (m : Manager) (w : W) (d : DecodedMbapFrame)
      → is_empty m.pending ≡ false
      → decode_mbap_frame m.receive_buffer ≡ some d
      → consume_tcp_frames wire client (suc fuel) now (m, w)
        ≡ consume_tcp_frames wire client fuel now (take_tcp wire client now d (m, w))
  unfolding consume_tcp_frames
  consume_round fuel now m w d busy found = ground arith

  consume-Answers :
      (fuel now : ℕ) (m : Manager) (w : W) (rest pending : List PendingRequest)
      (answers : List (PendingRequest × List ℕ))
      → Answers rest pending answers
      → length answers < fuel
      → (after : Manager) × (consume_tcp_frames wire client fuel now
            (record m { pending = pending; receive_buffer = answer_stream answers }, w)
          ≡ some (after, delivered wire deliver answers w))
        × (after.pending ≡ rest)
        × (after.receive_buffer ≡ [])
  unfolding delivered answer_stream
  consume-Answers zero now m w rest pending answers a h = absurd (omega arith)
  consume-Answers (suc fuel) now m w [] pending [] all_answered h =
      (_, consume_idle fuel now m w, refl, refl)
  consume-Answers (suc fuel) now m w (r ∷ rest) pending [] all_answered h =
      (_, consume_nothing fuel now m w r rest, refl, refl)
  consume-Answers (suc fuel) now m w rest pending ((r, pdu) ∷ answers)
        (answered before _ after _ _ fresh word fits a) h =
      let (t, e) = take_tcp-answer now m w before r after pdu (answer_stream answers) fresh in
      let said = deliver r.correlation_id pdu (wire.frame_received (answer_frame r pdu) w) in
      let (x, run, p, b) =
        consume-Answers fuel now (record m { timer = t }) said rest (before ++ after) answers a
          (omega arith) in
      (
        x,
        consume_round fuel now _ w _ (is_empty-middle before r after) (
              decode-encode_mbap_frame r.transaction_id r.unit_id pdu (answer_stream answers) word
                fits)
            ∙ ap (consume_tcp_frames wire client fuel now) e
            ∙ run,
        p,
        b,
      )

  -- On TCP with an empty buffer, a chunk of bytes that is a run of responses, in any order and each to
  -- the first request in flight with its transaction id, delivers each PDU once, in the order of
  -- arrival and with its request's correlation id, and leaves the other requests in flight and the
  -- buffer empty, if the slot on a response does not touch the manager.
  pub handle_data_received-Answers :
      (now : ℕ) (m : Manager) (w : W) (rest : List PendingRequest)
      (answers : List (PendingRequest × List ℕ))
      → m.framing_mode ≡ tcp
      → m.receive_buffer ≡ []
      → Answers rest m.pending answers
      → 0 < length answers
      → (after : Manager) × (handle_data_received wire client now (answer_stream answers) (m, w)
          ≡ some (after, delivered wire deliver answers w))
        × (after.pending ≡ rest)
        × (after.receive_buffer ≡ [])
  unfolding handle_data_received
  handle_data_received-Answers now m w rest answers mode empty a h =
      let (x, run, p, b) =
        consume-Answers (suc (length (answer_stream answers))) now m w rest m.pending answers a
          (omega (arith, length-answer_stream answers)) in
      let appended : m.receive_buffer ++ answer_stream answers ≡ answer_stream answers =
        rw empty refl in
      let read =
        consume_by_tcp (suc (length (answer_stream answers))) now m.framing_mode
          (record m { receive_buffer = answer_stream answers }, w) mode in
      (x, rw (is_empty-answered a h, appended, read) run, p, b)
