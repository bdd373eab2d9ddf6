-- ===== src/Outbound.antt =====
-- hedwig/manager.py: how messages are composed, drafted and promoted, and what belongs to them.
pub mod Rows
pub mod Compose
pub mod Drafts
pub mod Cancelled
