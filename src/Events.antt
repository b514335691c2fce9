-- ===== src/Events.antt =====
-- The events of descriptors that an `IOManager` waits for (sylar/sylar/iomanager.h, iomanager.cpp).
pub mod State
pub mod Keeping
pub mod Pending
pub mod Waking
