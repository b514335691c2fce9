-- ===== src/Timer.antt =====
-- The timers (sylar/sylar/timer.h, sylar/sylar/timer.cpp).
pub mod State
pub mod Manager
pub mod Order
pub mod Expiry
pub mod Changes
