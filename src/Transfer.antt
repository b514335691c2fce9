-- ===== src/Transfer.antt =====
-- `Stream::readFixSize` and `Stream::writeFixSize` (sylar/sylar/stream.cpp), and the reads and writes of
-- `SocketStream` on a `ByteArray` (sylar/sylar/stream/socket_stream.cpp).
pub mod Loops
pub mod Winsock
pub mod Sockets
pub mod Complete
pub mod Arrays
pub mod Receiving
pub mod Filling
pub mod Draining
