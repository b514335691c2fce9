-- ===== src/Descriptors.antt =====
-- The contexts of descriptors (sylar/sylar/fd_manager.h, fd_manager.cpp).
pub mod State
pub mod Own
