-- ===== src/Framing/Tcp.antt =====
-- core/modbus/ModbusTcpFramer.h and core/modbus/ModbusTcpFramer.cpp.
pub mod RoundTrip
pub mod Desync
use modbus_viewer.Prelude.{
  ℕ, zero, suc, ◌+◌, ◌-◌, ◌*◌, ◌%◌, ◌^◌, bit_or, not, List, [], ◌∷◌, ◌++◌, Option, none, some, ◌==◌,
  ltb, if◌then◌else◌, length, take, drop, get_or,
}
use modbus_viewer.Bytes.{append_u16}

pub record DecodedMbapFrame : Type 0 where
  pub transaction_id : ℕ
  pub unit_id : ℕ
  pub pdu : List ℕ
  pub frame_byte_count : ℕ

abbrev pub mbap_header_byte_count : ℕ
mbap_header_byte_count = 7

unfoldable pub encode_mbap_frame : ℕ → ℕ → List ℕ → List ℕ
encode_mbap_frame transaction_id unit_id pdu =
    let with_id = append_u16 [] transaction_id in
    let with_protocol = append_u16 with_id 0 in
    let with_length = append_u16 with_protocol ((1 + length pdu) % 65536) in
    (with_length ++ (unit_id ∷ [])) ++ pdu

-- `readBigEndianU16` of this file. Only read inside the header, which the buffer has.
unfoldable pub header_word : List ℕ → ℕ → ℕ
header_word buffer offset = bit_or (get_or buffer offset 0 * 2 ^ 8) (get_or buffer (offset + 1) 0)

-- `buffer.mid(MbapHeaderByteCount, length - 1)`: `QByteArray::mid` takes a length of -1 for all that
-- is left.
unfoldable pub mbap_pdu : List ℕ → ℕ → List ℕ
mbap_pdu buffer length_field =
    let left = drop mbap_header_byte_count buffer in
    if length_field == 0 then left else take (length_field - 1) left

unfoldable pub mbap_body : List ℕ → ℕ → Option DecodedMbapFrame
mbap_body buffer length_field =
    if ltb (length buffer) (6 + length_field)
    then none
    else some (record {
      transaction_id = header_word buffer 0;
      unit_id = get_or buffer 6 0;
      pdu = mbap_pdu buffer length_field;
      frame_byte_count = 6 + length_field;
    })

unfoldable pub decode_mbap_frame : List ℕ → Option DecodedMbapFrame
decode_mbap_frame buffer =
    if ltb (length buffer) mbap_header_byte_count
    then none
    else if not (header_word buffer 2 == 0)
    then none
    else mbap_body buffer (header_word buffer 4)
