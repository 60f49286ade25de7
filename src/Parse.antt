-- ===== src/Parse.antt =====
-- The reading of numbers from strings, of kernel/linux_func.c.
pub mod Kstrto
pub mod Ranges
