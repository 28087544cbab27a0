-- ===== src/Controller.antt =====
-- app-lib/ConnectionController.h and app-lib/ConnectionController.cpp, with the transports of
-- core/transport: connecting, losing and finding the device again, polling, and single requests.
pub mod State
pub mod Settings
pub mod Polling
pub mod Connection
pub mod Requests
pub mod Seeking
pub mod Recovery
pub mod Upkeep
pub mod Arrivals
pub mod Answers
pub mod Losing
pub mod Links
pub mod Serial
pub mod Disconnecting
pub mod Sharing
mod Tests
