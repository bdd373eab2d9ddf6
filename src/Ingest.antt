-- ===== src/Ingest.antt =====
-- providers/ingest.py: the inbound side.
pub mod Subjects
pub mod Resolve
pub mod Threads
pub mod Inbound
