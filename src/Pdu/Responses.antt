-- ===== src/Pdu/Responses.antt =====
-- The response half of core/modbus/ModbusPduCodec.cpp. An outer `none` is a read outside the PDU,
-- which Qt leaves undefined.
use modbus_viewer.Prelude.{
  ℕ, zero, suc, ◌+◌, ◌/◌, ◌%◌, ◌^◌, bit_and, Bool, not, List, [], ◌∷◌, Option, none, some, ◌>>=◌,
  ◌==◌, ltb, if◌then◌else◌, length, get_elem?,
}
use modbus_viewer.Bytes.{read_u16}
use modbus_viewer.Model.{
  function_byte, read_coils, read_discrete_inputs, read_holding_registers, read_input_registers,
  write_single_coil, write_single_register, write_multiple_coils, write_multiple_registers,
}
use modbus_viewer.Pdu.Exceptions.{
  Message, literal, unexpected_function_code, describe_exception_code, ModbusExceptionResponse,
  is_exception_function_code,
}

-- `PduDecodeResult` with its status and the fields that the status makes meaningful. An exception's
-- error message is that of the response.
pub data PduDecodeResult {ℓ} (T : Type ℓ) : Type ℓ where
  success : T → PduDecodeResult T
  malformed : Message → PduDecodeResult T
  exception_response : ModbusExceptionResponse → PduDecodeResult T

pub record WriteSingleResponse : Type 0 where
  pub address : ℕ
  pub value : ℕ

pub record WriteMultipleResponse : Type 0 where
  pub start_address : ℕ
  pub quantity : ℕ

-- The three outcomes that `isException` and `isValid` tell apart.
pub data ResponseHeaderCheck : Type 0 where
  valid : ResponseHeaderCheck
  invalid : Message → ResponseHeaderCheck
  exceptional : ModbusExceptionResponse → ResponseHeaderCheck

unfoldable pub check_exception : List ℕ → ℕ → Option ResponseHeaderCheck
check_exception pdu response_code =
    let read : Option ResponseHeaderCheck = (do
      code ← get_elem? pdu 1
      some (
          exceptional (record {
            original_function_code = bit_and response_code 0x7f;
            exception_code = code;
            message = describe_exception_code code;
          }))) in
    if ltb (length pdu) 2
    then some (invalid (literal "exception response missing exception code byte"))
    else read

unfoldable pub check_response_header : List ℕ → ℕ → Option ResponseHeaderCheck
unfolding check_exception
check_response_header [] expected = some (invalid (literal "empty PDU"))
check_response_header (response_code ∷ rest) expected =
    if is_exception_function_code response_code
    then check_exception (response_code ∷ rest) response_code
    else if response_code == expected
    then some valid
    else some (invalid (unexpected_function_code response_code expected))

-- What each decoder does with the outcome, before it reads the body.
unfoldable pub decode_checked {ℓ} :
    {T : Type ℓ}
    → Option ResponseHeaderCheck
    → Option (PduDecodeResult T)
    → Option (PduDecodeResult T)
decode_checked none body = none
decode_checked (some valid) body = body
decode_checked (some (invalid message)) body = some (malformed message)
decode_checked (some (exceptional response)) body = some (exception_response response)

-- The rounds of `for (int i = 0; i < byteCount; i += 2)`, from `i` on.
unfoldable pub read_registers : List ℕ → ℕ → ℕ → Option (List ℕ)
read_registers pdu zero i = some []
read_registers pdu (suc rounds) i = do
  value ← read_u16 pdu (2 + i)
  values ← read_registers pdu rounds (i + 2)
  some (value ∷ values)

unfoldable pub register_values : List ℕ → ℕ → Option (PduDecodeResult (List ℕ))
register_values pdu byte_count = do
  values ← read_registers pdu ((byte_count + 1) / 2) 0
  some (success values)

-- The checks that follow the byte count.
unfoldable pub counted_registers : List ℕ → ℕ → Option (PduDecodeResult (List ℕ))
counted_registers pdu byte_count =
    if not (byte_count % 2 == 0)
    then some (malformed (literal "odd byte count for register response"))
    else if ltb (length pdu) (2 + byte_count)
    then some (malformed (literal "pdu shorter than declared byte count"))
    else register_values pdu byte_count

unfoldable pub register_body : List ℕ → Option (PduDecodeResult (List ℕ))
register_body pdu =
    if ltb (length pdu) 2
    then some (malformed (literal "missing byte count"))
    else (get_elem? pdu 1 >>= counted_registers pdu)

unfoldable pub decode_read_registers_response : List ℕ → ℕ → Option (PduDecodeResult (List ℕ))
decode_read_registers_response pdu expected =
    decode_checked (check_response_header pdu expected) (register_body pdu)

unfoldable pub read_bit : List ℕ → ℕ → Option Bool
read_bit pdu bit = do
  byte ← get_elem? pdu (2 + bit / 8)
  some (not (bit_and byte (2 ^ (bit % 8)) == 0))

-- The rounds of the loop over `bit`, from `bit` on.
unfoldable pub read_bits : List ℕ → ℕ → ℕ → Option (List Bool)
read_bits pdu zero bit = some []
read_bits pdu (suc rounds) bit = do
  value ← read_bit pdu bit
  values ← read_bits pdu rounds (bit + 1)
  some (value ∷ values)

unfoldable pub bit_values : List ℕ → ℕ → Option (PduDecodeResult (List Bool))
bit_values pdu requested_quantity = do
  values ← read_bits pdu requested_quantity 0
  some (success values)

-- The checks that follow the byte count.
unfoldable pub counted_bits : List ℕ → ℕ → ℕ → Option (PduDecodeResult (List Bool))
counted_bits pdu requested_quantity byte_count =
    if ltb (length pdu) (2 + byte_count)
    then some (malformed (literal "pdu shorter than declared byte count"))
    else if not (byte_count == (requested_quantity + 7) / 8)
    then some (malformed (literal "byte count does not match requested quantity"))
    else bit_values pdu requested_quantity

unfoldable pub bit_body : List ℕ → ℕ → Option (PduDecodeResult (List Bool))
bit_body pdu requested_quantity =
    if ltb (length pdu) 2
    then some (malformed (literal "missing byte count"))
    else (get_elem? pdu 1 >>= counted_bits pdu requested_quantity)

unfoldable pub decode_read_bits_response : List ℕ → ℕ → ℕ → Option (PduDecodeResult (List Bool))
decode_read_bits_response pdu expected requested_quantity =
    decode_checked (check_response_header pdu expected) (bit_body pdu requested_quantity)

unfoldable pub write_single_body : List ℕ → Option (PduDecodeResult WriteSingleResponse)
write_single_body pdu =
    let read : Option (PduDecodeResult WriteSingleResponse) = (do
      address ← read_u16 pdu 1
      value ← read_u16 pdu 3
      some (success (record { address = address; value = value }))) in
    if ltb (length pdu) 5
    then some (malformed (literal "write response shorter than 5 bytes"))
    else read

unfoldable pub decode_write_single_response :
    List ℕ → ℕ → Option (PduDecodeResult WriteSingleResponse)
decode_write_single_response pdu expected =
    decode_checked (check_response_header pdu expected) (write_single_body pdu)

unfoldable pub write_multiple_body : List ℕ → Option (PduDecodeResult WriteMultipleResponse)
write_multiple_body pdu =
    let read : Option (PduDecodeResult WriteMultipleResponse) = (do
      start_address ← read_u16 pdu 1
      quantity ← read_u16 pdu 3
      some (success (record { start_address = start_address; quantity = quantity }))) in
    if ltb (length pdu) 5
    then some (malformed (literal "write response shorter than 5 bytes"))
    else read

unfoldable pub decode_write_multiple_response :
    List ℕ → ℕ → Option (PduDecodeResult WriteMultipleResponse)
decode_write_multiple_response pdu expected =
    decode_checked (check_response_header pdu expected) (write_multiple_body pdu)

unfoldable pub decode_read_coils_response : List ℕ → ℕ → Option (PduDecodeResult (List Bool))
decode_read_coils_response pdu requested_quantity =
    decode_read_bits_response pdu (function_byte read_coils) requested_quantity

unfoldable pub decode_read_discrete_inputs_response :
    List ℕ → ℕ → Option (PduDecodeResult (List Bool))
decode_read_discrete_inputs_response pdu requested_quantity =
    decode_read_bits_response pdu (function_byte read_discrete_inputs) requested_quantity

unfoldable pub decode_read_holding_registers_response : List ℕ → Option (PduDecodeResult (List ℕ))
decode_read_holding_registers_response pdu =
    decode_read_registers_response pdu (function_byte read_holding_registers)

unfoldable pub decode_read_input_registers_response : List ℕ → Option (PduDecodeResult (List ℕ))
decode_read_input_registers_response pdu =
    decode_read_registers_response pdu (function_byte read_input_registers)

unfoldable pub decode_write_single_coil_response :
    List ℕ → Option (PduDecodeResult WriteSingleResponse)
decode_write_single_coil_response pdu =
    decode_write_single_response pdu (function_byte write_single_coil)

unfoldable pub decode_write_single_register_response :
    List ℕ → Option (PduDecodeResult WriteSingleResponse)
decode_write_single_register_response pdu =
    decode_write_single_response pdu (function_byte write_single_register)

unfoldable pub decode_write_multiple_coils_response :
    List ℕ → Option (PduDecodeResult WriteMultipleResponse)
decode_write_multiple_coils_response pdu =
    decode_write_multiple_response pdu (function_byte write_multiple_coils)

unfoldable pub decode_write_multiple_registers_response :
    List ℕ → Option (PduDecodeResult WriteMultipleResponse)
decode_write_multiple_registers_response pdu =
    decode_write_multiple_response pdu (function_byte write_multiple_registers)
