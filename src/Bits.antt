-- ===== src/Bits.antt =====
-- The bits of machine words and the bitmaps of kernel/linux_func.c.
pub mod Words
pub mod Single
pub mod Sets
pub mod Next
pub mod Search
pub mod Maps
pub mod Combine
pub mod Query
pub mod Weight
pub mod Shift
pub mod Clear
pub mod Bytes
pub mod Unaligned
