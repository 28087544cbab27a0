-- ===== src/Framing.antt =====
-- core/modbus/ModbusRtuFramer.h, core/modbus/ModbusRtuFramer.cpp, core/modbus/ModbusTcpFramer.h and
-- core/modbus/ModbusTcpFramer.cpp: PDUs on the wire.
pub mod Rtu
pub mod Tcp
mod Tests
