-- ===== src/Table.antt =====
-- app-lib/models/RegisterTableModel.h and app-lib/models/RegisterTableModel.cpp: the table of a range
-- of registers or bits.
pub mod Rows
pub mod Operations
pub mod View
pub mod Spans
pub mod Rebuilding
pub mod Updates
pub mod Display
pub mod Keeping
pub mod Reaching
mod Tests
