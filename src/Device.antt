-- ===== src/Device.antt =====
-- The device model of kernel/linux_func.c.
pub mod Calls
pub mod Binding
pub mod Counts
pub mod References
