-- ===== src/Sending.antt =====
-- providers/sending.py and hedwig/tasks.py: the outbound side.
pub mod DailyLog
pub mod Attempts
pub mod Suppression
pub mod Dispatch
