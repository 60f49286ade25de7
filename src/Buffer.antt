-- ===== src/Buffer.antt =====
-- The copies between buffers and user space of kernel/linux_func.c.
pub mod Copies
pub mod RoundTrip
