-- ===== src/Scheduler.antt =====
-- The scheduler of fibers (sylar/sylar/scheduler.h, sylar/sylar/scheduler.cpp, sylar/sylar/fiber.cpp).
pub mod State
pub mod Run
pub mod Picking
pub mod Counts
pub mod Quiet
pub mod Resuming
pub mod Races
