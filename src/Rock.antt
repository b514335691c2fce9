-- ===== src/Rock.antt =====
-- sylar/sylar/protocol.h, protocol.cpp and rock/rock_protocol.cpp: the messages of the Rock protocol,
-- to and from a `ByteArray`.
pub mod Message
pub mod Emitting
pub mod Parsing
pub mod RoundTrip
pub mod Faults
pub mod Safety
pub mod Frame
pub mod Headers
pub mod Framing
pub mod Sending
pub mod Sockets
