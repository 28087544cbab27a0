-- ===== src/Lib.antt =====
-- A model of ModbusViewer, a Modbus TCP and RTU master, with proofs about its core.
--
-- The program's parts, from the wire upwards, and the files that model them:
--   * Bytes: the big-endian helpers of core/modbus/ModbusPduCodec.cpp. A QByteArray is a list of
--     numbers, and a statement about real bytes has the hypothesis that each is below 256.
--   * Model: register types and function codes (core/model/RegisterType.h and .cpp).
--   * Pdu: the codec (core/modbus/ModbusPduCodec.h and .cpp, core/modbus/ModbusException.h and
--     .cpp). Pdu.Exceptions, Pdu.Requests and Pdu.Responses hold the functions under the names of
--     the source in snake case; the other children hold proofs. A decoder returns an optional
--     result, where `none` is a read outside the array.
--   * Crc, Framing.Rtu, Framing.Tcp: core/modbus/Crc16.cpp, core/modbus/ModbusRtuFramer.cpp and
--     core/modbus/ModbusTcpFramer.cpp. Where a guard has checked the size, reads have a default
--     that is never used.
--   * Coalesce: core/poll/ReadCoalescer.cpp, with `coalesce` under that name and its helpers in the
--     order of the source. An index is carried with the target that it names.
--   * Transaction: core/modbus/ModbusTransactionManager.cpp. A `Manager` holds the members, and an
--     operation takes the time and returns the new manager with the state of the rest of the program.
--     The transport's `write` (`Wire`) and the slots on the results (`Client`) are parameters and may
--     call back. Transaction.Receive models the arrival of bytes and Transaction.Expiry the timer.
--   * Poll: core/poll/PollEngine.cpp. Poll.Caches holds the caches and `applyPlanResponse` up to the
--     signals, Poll.Engine the cycle and the pump, Poll.Settling the handlers and the flush. The slot
--     on the interval timer is `handle_interval_timer`, which calls `begin_cycle`. The
--     engine's state stands beside the manager's, and a `none` is a loop without end or an access
--     outside a list. The slots on the engine's signals (`Observer`) only record.
--   * Timing and Addresses: core/modbus/RtuTiming.cpp and core/format/AddressConvention.cpp.
--   * Format: core/format/ValueFormatter.cpp. Format.Words holds the byte orders, Format.Settings the
--     settings, Format.Values the functions. The type double and what QString converts are the
--     parameter `Numerics`. A `none` of `format_value` is a read outside the list of registers, and a
--     `none` of `parse_value` is `*ok` being false.
--   * Table: app-lib/models/RegisterTableModel.cpp. Table.Rows holds the state and
--     `rebuildLogicalRows`, Table.Operations the slots and setters, Table.View what `data` returns.
--     Each operation returns the signals that it emits; `setRegisters` is `set_registers`, which casts
--     its values and calls `update_registers`.
--   * Favorites: app-lib/models/FavoritesModel.cpp and core/model/RegisterDefinition.h, in
--     Favorites.Entries, Favorites.Operations and Favorites.View, in the same manner.
--   * Controller: app-lib/ConnectionController.cpp with `open` and `close` of
--     core/transport/TcpTransport.cpp and core/transport/SerialTransport.cpp. A `Session` is the
--     manager, the poll engine and the controller's own members. Controller.Settings holds the setters,
--     Controller.Polling what starts and stops the poll engine and the slots on its signals,
--     Controller.Connection the connection, and Controller.Requests the single requests. The transport's
--     `write` is a parameter, as is what Qt's sockets and ports do when they are opened (`Qt`).
--     The slots on the manager's results, the poll engine's before the controller's, are the client
--     `controller_client` in Controller.Answers.
--     `readRegisters`, `writeSingleRegister` and `writeSingleCoil` are `read_range`, `write_register`
--     and `write_coil`.
--   * Import: core/importer/TagRowParser.cpp (Import.Rows), core/importer/CsvTagParser.cpp on the lines
--     of a file (Import.Csv) and app-lib/models/TagDatabaseModel.cpp (Import.Database). `parseTagRow`
--     is `parse_tag_row`, whose part after the label is `parse_labelled`.
--   * Logs: app-lib/CommunicationLogModel.cpp (Logs.Communication) and app-lib/SessionLogger.cpp
--     (Logs.Session), whose file is the list of lines written to it.
--   * Prelude: names that all parts share, lists and bits over the native numbers.
--
-- A quint8 or quint16 is a number; each narrowing cast of the source is written as a remainder.
-- Arithmetic on int is exact: the values stay far below 2 ^ 31.
--
-- Bounds: the loop of `appendPlansForRun` runs on fuel, which is the number of addresses in the run.
-- Each round moves on by one address at least if the ceiling is positive; with a ceiling of 0 the
-- loop of the source does not end and the model returns `none`.
--
-- The loops that cut frames off the receive buffer run on fuel, one more than the bytes in it: a TCP
-- frame takes six bytes at least and an RTU frame five.
--
-- The loop of `pumpRequests` runs on fuel, the number of plans left. Each round moves on by one plan,
-- unless the transport calls the engine while it writes, where the model may return `none`.
--
-- The loop of `rebuildLogicalRows` runs on fuel, the number of registers. Each row takes one at least.
--
-- Not modelled: the JSON reader, the filter of the tag database, the settings and their storage, the
-- silence that a serial transport waits for before it writes, the texts that `QString::arg` formats (a message keeps what goes into the text), and
-- Qt itself.
pub mod Addresses
pub mod Bytes
pub mod Coalesce
pub mod Controller
pub mod Crc
pub mod Favorites
pub mod Format
pub mod Framing
pub mod Import
pub mod Logs
pub mod Model
pub mod Pdu
pub mod Poll
pub mod Prelude
pub mod Table
pub mod Timing
pub mod Transaction
