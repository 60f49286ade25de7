-- ===== src/Cdev.antt =====
-- The table of character devices of kernel/linux_func.c.
pub mod Table
pub mod Places
pub mod Lookup
