-- ===== src/Timer.antt =====
-- kernel/linux_timer.c: the timers, the thread that runs them, and the clock in jiffies.
pub mod Calls
pub mod Model
pub mod Scan
pub mod Clock
pub mod Turn
