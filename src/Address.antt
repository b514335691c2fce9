-- ===== src/Address.antt =====
-- Internet addresses (sylar/sylar/address.h, sylar/sylar/address.cpp).
pub mod Masks
pub mod Ipv4
pub mod Ipv6
pub mod Swapping
pub mod Counting
pub mod Subnets
pub mod Compression
pub mod Host
pub mod Hosts
