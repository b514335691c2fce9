-- ===== src/Log.antt =====
-- The patterns of log lines (sylar/sylar/log.cpp).
pub mod Pattern
pub mod Written
pub mod Ends
