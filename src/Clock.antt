-- ===== src/Clock.antt =====
-- Points in time: the ktime, timespec and timeval functions of kernel/linux_func.c.
pub mod Times
pub mod Nanoseconds
