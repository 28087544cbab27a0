-- ===== src/Framing/Tcp/Desync.antt =====
-- Bytes that no encoder writes: what the decoder makes of a stream that is out of step.
use modbus_viewer.Prelude.{
  ℕ, ◌*◌, ◌^◌, bit_or, ◌∷◌, ◌≤◌, ◌≡◌, ◌≢◌, List, ◌++◌, none, some, refl, arith, length,
  length-append, drop,
}
use modbus_viewer.Framing.Tcp.{
  DecodedMbapFrame, header_word, mbap_pdu, mbap_body, decode_mbap_frame,
}
use modbus_viewer.Framing.Tcp.RoundTrip.{header_word-append}

-- A buffer of at least four bytes whose protocol id is not 0 is never decoded, whatever is
-- behind it.
pub decode_mbap_frame_stuck :
    (buffer more : List ℕ)
    → 4 ≤ length buffer
    → header_word buffer 2 ≢ 0
    → decode_mbap_frame (buffer ++ more) ≡ none
unfolding decode_mbap_frame
decode_mbap_frame_stuck buffer more h n =
    ground (arith, header_word-append buffer more 2, length-append buffer more)

-- A header whose length field is 0 is decoded at once, whatever follows. Its PDU is all that the
-- buffer holds behind the seven bytes of the header, the frames that follow included, while the frame
-- is said to take six bytes: what is left in the buffer behind it begins with the unit id.
pub decode_mbap_frame_zero_length :
    (t1 t0 unit_id : ℕ) (rest : List ℕ)
    → (d : DecodedMbapFrame) × (decode_mbap_frame (t1 ∷ t0 ∷ 0 ∷ 0 ∷ 0 ∷ 0 ∷ unit_id ∷ rest)
        ≡ some d)
      × (d.unit_id ≡ unit_id)
      × (d.pdu ≡ rest)
      × (drop d.frame_byte_count (t1 ∷ t0 ∷ 0 ∷ 0 ∷ 0 ∷ 0 ∷ unit_id ∷ rest) ≡ unit_id ∷ rest)
unfolding decode_mbap_frame mbap_body mbap_pdu header_word
decode_mbap_frame_zero_length t1 t0 unit_id rest = (
  record {
    transaction_id = bit_or (t1 * 2 ^ 8) t0;
    unit_id = unit_id;
    pdu = rest;
    frame_byte_count = 6;
  },
  ground arith,
  refl,
  refl,
  refl,
)

-- A frame that is decoded lies in the buffer, takes at least six bytes, and has the protocol id 0.
pub decode_mbap_frame_sound :
    (buffer : List ℕ) (d : DecodedMbapFrame)
    → decode_mbap_frame buffer ≡ some d
    → (6 ≤ d.frame_byte_count) × (d.frame_byte_count ≤ length buffer) × (header_word buffer 2 ≡ 0)
unfolding decode_mbap_frame mbap_body
decode_mbap_frame_sound buffer d e = ground arith
