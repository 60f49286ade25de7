-- ===== src/Compat.antt =====
-- The user-space memory of 32-bit calls, of kernel/linux_compat32.c.
pub mod Space
pub mod Window
