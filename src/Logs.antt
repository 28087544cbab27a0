-- ===== src/Logs.antt =====
-- app-lib/CommunicationLogModel.cpp and app-lib/SessionLogger.cpp: the log on the screen and the log file.
pub mod Communication
pub mod Session
pub mod Window
pub mod Counts
mod Tests
