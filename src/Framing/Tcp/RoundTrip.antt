-- ===== src/Framing/Tcp/RoundTrip.antt =====
-- `encodeMbapFrame` and `decodeMbapFrame` of core/modbus/ModbusTcpFramer.cpp, one after the other.
use modbus_viewer.Prelude.{
  ℕ, ◌+◌, ◌-◌, ◌/◌, ◌%◌, ◌<◌, ◌≡◌, refl, sym, ap, ◌∙◌, List, [], ◌∷◌, ◌++◌, none, some, arith,
  length, length-append, take-append_exact, get_or-append_left,
}
use modbus_viewer.Bytes.{IsWord, append_u16, u16_bytes_lem, word_of_bytes}
use modbus_viewer.Framing.Tcp.{
  encode_mbap_frame, header_word, mbap_pdu, mbap_body, decode_mbap_frame,
}

-- The seven bytes of the header.
abbrev pub header : ℕ → ℕ → ℕ → List ℕ
header t l u = (t / 256) ∷ (t % 256) ∷ 0 ∷ 0 ∷ (l / 256) ∷ (l % 256) ∷ u ∷ []

pub encode_mbap_frame-header :
    (t u : ℕ) (pdu : List ℕ)
    → IsWord t
    → length pdu < 65535
    → encode_mbap_frame t u pdu ≡ header t (1 + length pdu) u ++ pdu
unfolding encode_mbap_frame append_u16
encode_mbap_frame-header t u pdu ht hp =
    let fits : (1 + length pdu) % 65536 ≡ 1 + length pdu = omega arith in
    rw
      (
        fits,
        u16_bytes_lem t ht,
        u16_bytes_lem 0 (omega arith),
        u16_bytes_lem (1 + length pdu) (omega arith),
      )
      refl

pub header_words :
    (t l u : ℕ) (rest : List ℕ)
    → IsWord t
    → IsWord l
    → (header_word (header t l u ++ rest) 0 ≡ t)
      × (header_word (header t l u ++ rest) 2 ≡ 0)
      × (header_word (header t l u ++ rest) 4 ≡ l)
unfolding header_word
header_words t l u rest ht hl = (
  word_of_bytes (t / 256) (t % 256) (omega arith) ∙ omega arith,
  refl,
  word_of_bytes (l / 256) (l % 256) (omega arith) ∙ omega arith,
)

-- A buffer that begins with an encoded frame decodes to its transaction id, unit id and PDU, and to
-- the number of bytes that the frame takes, whatever follows it.
pub decode-encode_mbap_frame :
    (transaction_id unit_id : ℕ) (pdu rest : List ℕ)
    → IsWord transaction_id
    → length pdu < 65535
    → decode_mbap_frame (encode_mbap_frame transaction_id unit_id pdu ++ rest)
      ≡ some (record {
        transaction_id = transaction_id;
        unit_id = unit_id;
        pdu = pdu;
        frame_byte_count = length (encode_mbap_frame transaction_id unit_id pdu);
      })
unfolding decode_mbap_frame mbap_body mbap_pdu
decode-encode_mbap_frame t u pdu rest ht hp =
    rw (encode_mbap_frame-header t u pdu ht hp)
      (decoded (header_words t (1 + length pdu) u (pdu ++ rest) ht (omega arith)))
  where
    decoded :
        (header_word (header t (1 + length pdu) u ++ (pdu ++ rest)) 0 ≡ t)
          × (header_word (header t (1 + length pdu) u ++ (pdu ++ rest)) 2 ≡ 0)
          × (header_word (header t (1 + length pdu) u ++ (pdu ++ rest)) 4 ≡ 1 + length pdu)
        → decode_mbap_frame ((header t (1 + length pdu) u ++ pdu) ++ rest)
          ≡ some (record {
            transaction_id = t;
            unit_id = u;
            pdu = pdu;
            frame_byte_count = length (header t (1 + length pdu) u ++ pdu);
          })
    decoded (a, p, l) =
        let less : 1 + length pdu - 1 ≡ length pdu = omega arith in
        rw (p, l, a, less, take-append_exact pdu rest) (ground (arith, length-append pdu rest))

-- A word of the header does not change when more bytes arrive.
pub header_word-append :
    (front back : List ℕ) (offset : ℕ)
    → offset + 1 < length front
    → header_word (front ++ back) offset ≡ header_word front offset
unfolding header_word
header_word-append front back offset h =
    rw
      (
        get_or-append_left front back offset 0 (omega arith),
        get_or-append_left front back (offset + 1) 0 h,
      )
      refl

short_part :
    (front back : List ℕ) (l : ℕ)
    → header_word (front ++ back) 4 ≡ l
    → length (front ++ back) ≡ 6 + l
    → 0 < length back
    → decode_mbap_frame front ≡ none
unfolding decode_mbap_frame mbap_body
short_part front back l word size h =
    ground (arith, header_word-append front back 4, length-append front back)

-- A proper part of an encoded frame is not decoded: the reader keeps buffering.
pub decode_mbap_frame_part :
    (transaction_id unit_id : ℕ) (pdu front back : List ℕ)
    → IsWord transaction_id
    → length pdu < 65535
    → encode_mbap_frame transaction_id unit_id pdu ≡ front ++ back
    → 0 < length back
    → decode_mbap_frame front ≡ none
decode_mbap_frame_part t u pdu front back ht hp e h =
    let whole : header t (1 + length pdu) u ++ pdu ≡ front ++ back =
      sym (encode_mbap_frame-header t u pdu ht hp) ∙ e in
    let (_, _, word) = header_words t (1 + length pdu) u pdu ht (omega arith) in
    short_part front back (1 + length pdu) (ap (λ f. header_word f 4) (sym whole) ∙ word)
      (ap length (sym whole) ∙ omega arith) h
