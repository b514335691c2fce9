-- ===== src/Env.antt =====
-- The environment of the program (sylar/sylar/env.h, sylar/sylar/env.cpp).
pub mod State
pub mod Options
pub mod Lookup
