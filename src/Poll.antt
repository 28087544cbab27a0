-- ===== src/Poll.antt =====
-- core/poll/PollEngine.h and core/poll/PollEngine.cpp: poll targets are kept live.
pub mod Caches
pub mod Filling
pub mod Room
pub mod Applying
pub mod Engine
pub mod Settling
pub mod Generations
pub mod Sending
pub mod Window
mod Tests
