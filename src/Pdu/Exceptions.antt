-- ===== src/Pdu/Exceptions.antt =====
-- core/modbus/ModbusException.h and core/modbus/ModbusException.cpp.
use Prim.Native.String.{String}
use modbus_viewer.Prelude.{ℕ, bit_and, Bool, not, ◌==◌, if◌then◌else◌}

-- The texts that reach the log. A text with arguments is kept as what it is formatted from, since
-- the formatting itself is `QString::arg`.
pub data Message : Type 0 where
  literal : String → Message
  unknown_exception : ℕ → Message
  unexpected_function_code : ℕ → ℕ → Message
  request_timed_out : ℕ → Message

-- The switch over `ModbusExceptionCode`; a code that is no enumerator falls out of it.
unfoldable pub describe_exception_code : ℕ → Message
describe_exception_code code =
    if code == 0x01
    then literal "Illegal Function"
    else if code == 0x02
    then literal "Illegal Data Address"
    else if code == 0x03
    then literal "Illegal Data Value"
    else if code == 0x04
    then literal "Slave Device Failure"
    else if code == 0x05
    then literal "Acknowledge"
    else if code == 0x06
    then literal "Slave Device Busy"
    else if code == 0x08
    then literal "Memory Parity Error"
    else if code == 0x0a
    then literal "Gateway Path Unavailable"
    else if code == 0x0b
    then literal "Gateway Target Device Failed to Respond"
    else unknown_exception code

pub record ModbusExceptionResponse : Type 0 where
  pub original_function_code : ℕ
  pub exception_code : ℕ
  pub message : Message

unfoldable pub is_exception_function_code : ℕ → Bool
is_exception_function_code function_code = not (bit_and function_code 0x80 == 0)
