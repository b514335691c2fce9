-- ===== src/ByteArray.antt =====
-- sylar/sylar/bytearray.h and bytearray.cpp: a growing byte store over a linked list of blocks.
pub mod State
pub mod Store
pub mod Invariant
pub mod Loops
pub mod Capacity
pub mod View
pub mod Writes
pub mod Reads
pub mod Start
pub mod Codec
pub mod Safety
pub mod RoundTrip
pub mod Values
pub mod Buffers
