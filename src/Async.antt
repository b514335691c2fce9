-- ===== src/Async.antt =====
-- The asynchronous stream (sylar/sylar/stream/async_socket_stream.h and .cpp) and its request of
-- the Rock protocol (sylar/sylar/rock/rock_stream.cpp).
pub mod State
pub mod Contexts
pub mod Answers
pub mod Closing
pub mod Release
pub mod Connecting
pub mod Permits
pub mod Pool
pub mod Rotation
