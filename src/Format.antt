-- ===== src/Format.antt =====
-- core/format/ValueFormatter.h and core/format/ValueFormatter.cpp: registers as text and back.
pub mod Words
pub mod Settings
pub mod Values
pub mod Reading
pub mod RoundTrip
pub mod Samples
mod Tests
