-- ===== src/Framing/Tests.antt =====
-- Frames of tests/test_rtu_framing.cpp and tests/test_mbap_framing.cpp, and the theorems at concrete
-- inputs.
use modbus_viewer.Prelude.{
  ℕ, ◌≡◌, ◌≢◌, ◌<◌, ◌⊎◌, refl, List, [], ◌∷◌, ◌++◌, some, none, arith, length, drop,
}
use modbus_viewer.Bytes.{append_u16, u16_bytes}
use modbus_viewer.Crc.{compute_modbus_crc16}
use modbus_viewer.Crc.Injective.{crc16_single_byte}
use modbus_viewer.Framing.Rtu.{
  DecodedRtuFrame, encode_rtu_frame, decode_rtu_frame, is_read_function_code,
  is_write_function_code, expected_rtu_response_length,
}
use modbus_viewer.Framing.Rtu.RoundTrip.{decode-encode_rtu_frame}
use modbus_viewer.Framing.Rtu.Corruption.{decode_rtu_frame_corrupted}
use modbus_viewer.Framing.Rtu.Length.{read_pdu, expected_length_whole, expected_length_part}
use modbus_viewer.Framing.Tcp.{DecodedMbapFrame, encode_mbap_frame, decode_mbap_frame}
use modbus_viewer.Framing.Tcp.RoundTrip.{decode-encode_mbap_frame, decode_mbap_frame_part}
use modbus_viewer.Framing.Tcp.Desync.{decode_mbap_frame_zero_length}

abbrev read_pdu_bytes : List ℕ
read_pdu_bytes = 3 ∷ 2 ∷ 0 ∷ 7 ∷ []

-- A read of one holding register of unit 1, on the wire.
read_request_frame :
    encode_rtu_frame 1 (3 ∷ 0 ∷ 0 ∷ 0 ∷ 1 ∷ []) ≡ 1 ∷ 3 ∷ 0 ∷ 0 ∷ 0 ∷ 1 ∷ 0x84 ∷ 0x0a ∷ []
unfolding encode_rtu_frame compute_modbus_crc16
read_request_frame = refl

mbap_request_frame :
    encode_mbap_frame 1 17 (3 ∷ 0 ∷ 0x6b ∷ 0 ∷ 3 ∷ [])
    ≡ 0 ∷ 1 ∷ 0 ∷ 0 ∷ 0 ∷ 6 ∷ 17 ∷ 3 ∷ 0 ∷ 0x6b ∷ 0 ∷ 3 ∷ []
unfolding encode_mbap_frame append_u16 u16_bytes
mbap_request_frame = refl

decode-encode_rtu_frame_example :
    decode_rtu_frame (encode_rtu_frame 1 read_pdu_bytes)
    ≡ some (record { unit_id = 1; pdu = read_pdu_bytes })
decode-encode_rtu_frame_example =
    decode-encode_rtu_frame 1 read_pdu_bytes (omega arith) (omega arith)

abbrev read_back : DecodedRtuFrame
read_back = record { unit_id = 1; pdu = 3 ∷ 0 ∷ 0 ∷ 0 ∷ 1 ∷ [] }

decode_rtu_frame_corrupted_example :
    decode_rtu_frame (1 ∷ 3 ∷ 0 ∷ 9 ∷ 0 ∷ 1 ∷ 0x84 ∷ 0x0a ∷ []) ≡ none
decode_rtu_frame_corrupted_example =
    decode_rtu_frame_corrupted 1 (3 ∷ 0 ∷ 0 ∷ 0 ∷ 1 ∷ []) (1 ∷ 3 ∷ 0 ∷ [])
      (0 ∷ 1 ∷ 0x84 ∷ 0x0a ∷ []) 0 9 (omega arith) (omega arith) (omega arith) (omega arith)
      read_request_frame

crc16_single_byte_example :
    compute_modbus_crc16 (1 ∷ 2 ∷ 3 ∷ []) ≢ compute_modbus_crc16 (1 ∷ 9 ∷ 3 ∷ [])
crc16_single_byte_example =
    crc16_single_byte (1 ∷ []) (3 ∷ []) 2 9 (omega arith) (omega arith) (omega arith) (omega arith)
      (omega arith)

expected_length_whole_example :
    expected_rtu_response_length (encode_rtu_frame 1 read_pdu_bytes ++ (9 ∷ []))
    ≡ length (encode_rtu_frame 1 read_pdu_bytes)
unfolding is_read_function_code is_write_function_code
expected_length_whole_example =
    expected_length_whole 1 read_pdu_bytes (9 ∷ [])
      (read_pdu 3 (0 ∷ 7 ∷ []) (omega arith) refl refl)

read_response_frame :
    encode_rtu_frame 1 read_pdu_bytes ≡ (1 ∷ 3 ∷ 2 ∷ []) ++ (0 ∷ 7 ∷ 0xf9 ∷ 0x86 ∷ [])
unfolding encode_rtu_frame compute_modbus_crc16
read_response_frame = refl

expected_length_part_example :
    (expected_rtu_response_length (1 ∷ 3 ∷ 2 ∷ []) ≡ 0)
    ⊎ (3 < expected_rtu_response_length (1 ∷ 3 ∷ 2 ∷ []))
unfolding is_read_function_code is_write_function_code
expected_length_part_example =
    expected_length_part 1 read_pdu_bytes (1 ∷ 3 ∷ 2 ∷ []) (0 ∷ 7 ∷ 0xf9 ∷ 0x86 ∷ [])
      (read_pdu 3 (0 ∷ 7 ∷ []) (omega arith) refl refl) read_response_frame (omega arith)

decode-encode_mbap_frame_example :
    decode_mbap_frame (encode_mbap_frame 0x102 17 read_pdu_bytes ++ (5 ∷ []))
    ≡ some (record {
      transaction_id = 0x102;
      unit_id = 17;
      pdu = read_pdu_bytes;
      frame_byte_count = length (encode_mbap_frame 0x102 17 read_pdu_bytes);
    })
decode-encode_mbap_frame_example =
    decode-encode_mbap_frame 0x102 17 read_pdu_bytes (5 ∷ []) (omega arith) (omega arith)

decode_mbap_frame_part_example : decode_mbap_frame (0 ∷ 1 ∷ 0 ∷ 0 ∷ 0 ∷ 6 ∷ 17 ∷ 3 ∷ []) ≡ none
decode_mbap_frame_part_example =
    decode_mbap_frame_part 1 17 (3 ∷ 0 ∷ 0x6b ∷ 0 ∷ 3 ∷ []) (0 ∷ 1 ∷ 0 ∷ 0 ∷ 0 ∷ 6 ∷ 17 ∷ 3 ∷ [])
      (0 ∷ 0x6b ∷ 0 ∷ 3 ∷ []) (omega arith) (omega arith) mbap_request_frame (omega arith)

decode_mbap_frame_zero_length_example :
    (d : DecodedMbapFrame) × (decode_mbap_frame (0 ∷ 1 ∷ 0 ∷ 0 ∷ 0 ∷ 0 ∷ 17 ∷ 0 ∷ 2 ∷ []) ≡ some d)
    × (d.unit_id ≡ 17)
    × (d.pdu ≡ 0 ∷ 2 ∷ [])
    × (drop {A = ℕ} d.frame_byte_count (0 ∷ 1 ∷ 0 ∷ 0 ∷ 0 ∷ 0 ∷ 17 ∷ 0 ∷ 2 ∷ []) ≡ 17 ∷ 0 ∷ 2 ∷ [])
decode_mbap_frame_zero_length_example = decode_mbap_frame_zero_length 0 1 17 (0 ∷ 2 ∷ [])
