-- ===== src/Pdu.antt =====
-- core/modbus/ModbusPduCodec.h, core/modbus/ModbusPduCodec.cpp, core/modbus/ModbusException.h and
-- core/modbus/ModbusException.cpp: the requests that are sent and the responses that are read.
pub mod Exceptions
pub mod Requests
pub mod Responses
pub mod Safety
pub mod Registers
pub mod Bits
pub mod Rejection
pub mod Echo
mod Tests
