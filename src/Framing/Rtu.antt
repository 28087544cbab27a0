-- ===== src/Framing/Rtu.antt =====
-- core/modbus/ModbusRtuFramer.h and core/modbus/ModbusRtuFramer.cpp.
pub mod RoundTrip
pub mod Corruption
pub mod Length
use modbus_viewer.Prelude.{
  ℕ, zero, suc, ◌+◌, ◌-◌, ◌*◌, ◌/◌, ◌^◌, bit_and, bit_or, Bool, ◌||◌, List, [], ◌∷◌, ◌++◌, Option,
  none, some, ◌==◌, ltb, if◌then◌else◌, length, take, drop, get_or,
}
use modbus_viewer.Model.{
  function_byte, read_coils, read_discrete_inputs, read_holding_registers, read_input_registers,
  write_single_coil, write_single_register, write_multiple_coils, write_multiple_registers,
}
use modbus_viewer.Crc.{compute_modbus_crc16}
use modbus_viewer.Pdu.Exceptions.{is_exception_function_code}

pub record DecodedRtuFrame : Type 0 where
  pub unit_id : ℕ
  pub pdu : List ℕ

abbrev crc_byte_count : ℕ
crc_byte_count = 2

abbrev minimum_frame_byte_count : ℕ
minimum_frame_byte_count = 1 + crc_byte_count

-- Low byte first.
abbrev crc_bytes : ℕ → List ℕ
crc_bytes crc = bit_and crc 0xff ∷ bit_and (crc / 2 ^ 8) 0xff ∷ []

unfoldable pub encode_rtu_frame : ℕ → List ℕ → List ℕ
encode_rtu_frame unit_id pdu = (unit_id ∷ pdu) ++ crc_bytes (compute_modbus_crc16 (unit_id ∷ pdu))

-- The last two bytes, low byte first. Only read where the frame has them.
unfoldable pub received_crc : List ℕ → ℕ
received_crc frame =
    bit_or (get_or frame (length frame - 2) 0) (get_or frame (length frame - 1) 0 * 2 ^ 8)

unfoldable pub without_crc : List ℕ → List ℕ
without_crc frame = take (length frame - crc_byte_count) frame

unfoldable pub decode_rtu_frame : List ℕ → Option DecodedRtuFrame
decode_rtu_frame frame =
    if ltb (length frame) minimum_frame_byte_count
    then none
    else if compute_modbus_crc16 (without_crc frame) == received_crc frame
    then some
        (record { unit_id = get_or (without_crc frame) 0 0; pdu = drop 1 (without_crc frame) })
    else none

unfoldable pub is_read_function_code : ℕ → Bool
is_read_function_code fc =
    fc == function_byte read_coils
    || fc == function_byte read_discrete_inputs
    || fc == function_byte read_holding_registers
    || fc == function_byte read_input_registers

unfoldable pub is_write_function_code : ℕ → Bool
is_write_function_code fc =
    fc == function_byte write_single_coil
    || fc == function_byte write_single_register
    || fc == function_byte write_multiple_coils
    || fc == function_byte write_multiple_registers

-- 0 means that more bytes are needed, or that the function code is not known.
unfoldable pub length_by_function : List ℕ → ℕ → ℕ
length_by_function partial_frame fc =
    if is_exception_function_code fc
    then 5
    else if is_write_function_code fc
    then 8
    else if is_read_function_code fc
    then if ltb (length partial_frame) 3 then 0 else 5 + get_or partial_frame 2 0
    else 0

unfoldable pub expected_rtu_response_length : List ℕ → ℕ
expected_rtu_response_length partial_frame =
    if ltb (length partial_frame) 2
    then 0
    else length_by_function partial_frame (get_or partial_frame 1 0)
