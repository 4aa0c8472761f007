-- ===== src/QueryLog.antt =====
-- cpp/query_log.h and cpp/query_log.cpp: the log of calls.
pub mod Escape
pub mod Entry
mod Examples
