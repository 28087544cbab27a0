-- ===== src/Pdu/Rejection.antt =====
-- What every decoder makes of an exception, of another function's response and of a write response.
use modbus_viewer.Prelude.{ℕ, ◌+◌, ◌<◌, ◌≡◌, ◌≢◌, refl, ◌∙◌, Bool, List, ◌∷◌, some, arith, bit_and}
use modbus_viewer.Prelude.Bits.{bit_and_seven_bits}
use modbus_viewer.Pdu.Exceptions.{
  Message, unexpected_function_code, describe_exception_code, ModbusExceptionResponse,
}
use modbus_viewer.Pdu.Registers.{is_exception-of_lt, is_exception-of_le}
use modbus_viewer.Pdu.Responses.{
  PduDecodeResult, malformed, exception_response, exceptional, invalid, check_response_header,
  decode_checked, decode_read_registers_response, decode_read_bits_response,
  decode_write_single_response, decode_write_multiple_response, WriteSingleResponse,
  WriteMultipleResponse,
}

-- The four decoders give one and the same refusal.
abbrev pub AllDecode : List ℕ → ℕ → ℕ → ((T : Type 0) → PduDecodeResult T) → Type 0
AllDecode pdu expected quantity r =
    (decode_read_registers_response pdu expected ≡ some (r (List ℕ)))
    × (decode_read_bits_response pdu expected quantity ≡ some (r (List Bool)))
    × (decode_write_single_response pdu expected ≡ some (r WriteSingleResponse))
    × (decode_write_multiple_response pdu expected ≡ some (r WriteMultipleResponse))

all_exceptional :
    (pdu : List ℕ) (expected quantity : ℕ) (r : ModbusExceptionResponse)
    → check_response_header pdu expected ≡ some (exceptional r)
    → AllDecode pdu expected quantity (λ T. exception_response r)
unfolding decode_read_registers_response decode_read_bits_response decode_write_single_response
    decode_write_multiple_response decode_checked
all_exceptional pdu expected quantity r e = (rw e refl, rw e refl, rw e refl, rw e refl)

all_invalid :
    (pdu : List ℕ) (expected quantity : ℕ) (m : Message)
    → check_response_header pdu expected ≡ some (invalid m)
    → AllDecode pdu expected quantity (λ T. malformed m)
unfolding decode_read_registers_response decode_read_bits_response decode_write_single_response
    decode_write_multiple_response decode_checked
all_invalid pdu expected quantity m e = (rw e refl, rw e refl, rw e refl, rw e refl)

abbrev pub exception_of : ℕ → ℕ → ModbusExceptionResponse
exception_of fc code = record {
  original_function_code = fc;
  exception_code = code;
  message = describe_exception_code code;
}

exception_header :
    (fc code : ℕ) (rest : List ℕ) (expected : ℕ)
    → fc < 128
    → check_response_header ((fc + 128) ∷ code ∷ rest) expected
      ≡ some (exceptional (exception_of fc code))
unfolding check_response_header
exception_header fc code rest expected h =
    let original : bit_and (fc + 128) 0x7f ≡ fc = bit_and_seven_bits (fc + 128) ∙ omega arith in
    rw (is_exception-of_le (fc + 128) (omega arith) (omega arith), original) (ground arith)

-- A response with the top bit of function code `fc` set and an exception code is reported by every
-- decoder as that exception of `fc`, whatever function was asked for and whatever follows.
pub decode_exception :
    (fc code : ℕ) (rest : List ℕ) (expected quantity : ℕ)
    → fc < 128
    → AllDecode
        ((fc + 128) ∷ code ∷ rest)
        expected
        quantity
        (λ T. exception_response (exception_of fc code))
decode_exception fc code rest expected quantity h =
    all_exceptional _ expected quantity _ (exception_header fc code rest expected h)

other_header :
    (a : ℕ) (rest : List ℕ) (expected : ℕ)
    → a < 128
    → a ≢ expected
    → check_response_header (a ∷ rest) expected
      ≡ some (invalid (unexpected_function_code a expected))
unfolding check_response_header
other_header a rest expected h n = rw (is_exception-of_lt a h) (ground arith)

-- A response to another function is refused by every decoder, however well formed its body is.
pub decode_other_function :
    (a : ℕ) (rest : List ℕ) (expected quantity : ℕ)
    → a < 128
    → a ≢ expected
    → AllDecode (a ∷ rest) expected quantity (λ T. malformed (unexpected_function_code a expected))
decode_other_function a rest expected quantity h n =
    all_invalid _ expected quantity _ (other_header a rest expected h n)
