-- ===== src/Pdu/Tests.antt =====
-- The codec on cases of tests/test_pdu_codec.cpp, and its theorems at concrete inputs.
use modbus_viewer.Prelude.{
  ℕ, ◌≡◌, ◌≢◌, refl, Bool, true, false, List, [], ◌∷◌, ◌++◌, some, none, arith, All,
}
use modbus_viewer.Bytes.{IsWord, read_u16, u16_bytes, append_u16}
use modbus_viewer.Model.{read_holding_registers}
use modbus_viewer.Pdu.Exceptions.{is_exception_function_code}
use modbus_viewer.Pdu.Requests.{
  pack_bits, pack_loop, pack_bit, encode_read_request, encode_write_single_register_request,
  encode_write_single_coil_request, encode_write_multiple_coils_request,
  encode_write_multiple_registers_request, append_words,
}
use modbus_viewer.Pdu.Responses.{
  success, exception_response, decode_read_registers_response, decode_read_bits_response,
  decode_write_single_response, decode_write_multiple_response,
  decode_write_single_register_response, decode_write_single_coil_response, check_response_header,
  decode_checked, register_body, counted_registers, register_values, read_registers,
}
use modbus_viewer.Pdu.Safety.{decoders-ne-none}
use modbus_viewer.Pdu.Registers.{
  register_response, decode_registers-register_response, decode_registers_sound,
}
use modbus_viewer.Pdu.Bits.{bit_response, decode_bits-bit_response}
use modbus_viewer.Pdu.Rejection.{AllDecode, exception_of, decode_exception}
use modbus_viewer.Pdu.Echo.{decode_write_single-request}

abbrev two_registers : List ℕ
two_registers = 3 ∷ 4 ∷ 0x01 ∷ 0x2c ∷ 0xff ∷ 0xff ∷ []

-- Ten coils take two bytes, lowest bit first.
abbrev ten_coils : List Bool
ten_coils = true ∷ false ∷ true ∷ true ∷ false ∷ false ∷ true ∷ true ∷ true ∷ false ∷ []

pack_bits_runs : pack_bits ten_coils ≡ 0xcd ∷ 0x01 ∷ []
unfolding pack_bits pack_loop pack_bit
pack_bits_runs = refl

encode_read_request_runs :
    encode_read_request read_holding_registers 0x006b 3 ≡ 3 ∷ 0 ∷ 0x6b ∷ 0 ∷ 3 ∷ []
unfolding encode_read_request append_u16 u16_bytes
encode_read_request_runs = refl

encode_write_multiple_registers_runs :
    encode_write_multiple_registers_request 1 (0x000a ∷ 0x0102 ∷ [])
    ≡ 0x10 ∷ 0 ∷ 1 ∷ 0 ∷ 2 ∷ 4 ∷ 0 ∷ 0x0a ∷ 1 ∷ 2 ∷ []
unfolding encode_write_multiple_registers_request append_words append_u16 u16_bytes
encode_write_multiple_registers_runs = refl

encode_write_multiple_coils_runs :
    encode_write_multiple_coils_request 0x13 ten_coils
    ≡ 0x0f ∷ 0 ∷ 0x13 ∷ 0 ∷ 10 ∷ 2 ∷ 0xcd ∷ 0x01 ∷ []
unfolding encode_write_multiple_coils_request append_u16 u16_bytes pack_bits pack_loop pack_bit
encode_write_multiple_coils_runs = refl

decode_two_registers :
    decode_read_registers_response two_registers 3 ≡ some (success (300 ∷ 0xffff ∷ []))
unfolding decode_read_registers_response decode_checked check_response_header
    is_exception_function_code register_body counted_registers register_values read_registers
    read_u16
decode_two_registers = refl

decoders-ne-none_example :
    (decode_read_registers_response two_registers 3 ≢ none)
    × (decode_read_bits_response two_registers 3 32 ≢ none)
    × (decode_write_single_response two_registers 3 ≢ none)
    × (decode_write_multiple_response two_registers 3 ≢ none)
decoders-ne-none_example = decoders-ne-none two_registers 3 32

decode_registers-register_response_example :
    decode_read_registers_response (register_response 3 (300 ∷ 7 ∷ []) ++ (9 ∷ [])) 3
    ≡ some (success (300 ∷ 7 ∷ []))
decode_registers-register_response_example =
    decode_registers-register_response 3 (300 ∷ 7 ∷ []) (9 ∷ []) (omega arith) (omega arith)
      (omega arith)

decode_registers_sound_example :
    (rest : List ℕ) × (two_registers ≡ register_response 3 (300 ∷ 0xffff ∷ []) ++ rest)
    × All IsWord (300 ∷ 0xffff ∷ [])
decode_registers_sound_example =
    decode_registers_sound two_registers 3 (300 ∷ 0xffff ∷ []) (omega arith) decode_two_registers

decode_bits-bit_response_example :
    decode_read_bits_response (bit_response 1 ten_coils ++ (0xff ∷ [])) 1 10
    ≡ some (success ten_coils)
decode_bits-bit_response_example =
    decode_bits-bit_response 1 ten_coils (0xff ∷ []) (omega arith) (omega arith)

decode_exception_example :
    AllDecode (0x83 ∷ 2 ∷ []) 3 10 (λ T. exception_response (exception_of 3 2))
decode_exception_example = decode_exception 3 2 [] 3 10 (omega arith)

decode_write_single-request_example :
    (decode_write_single_register_response (encode_write_single_register_request 1 3 ++ [])
      ≡ some (success (record { address = 1; value = 3 })))
    × (decode_write_single_coil_response (encode_write_single_coil_request 1 true ++ [])
        ≡ some (success (record { address = 1; value = 0xff00 })))
decode_write_single-request_example =
    decode_write_single-request 1 3 true [] (omega arith) (omega arith)
