-- ===== src/ByteArray/Loops.antt =====
-- The loops of bytearray.cpp over the blocks: each one ends without a fault, and what it does to
-- the run of bytes that the blocks hold.
pub mod Landing
pub mod Writing
pub mod Reading
