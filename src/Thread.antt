-- ===== src/Thread.antt =====
-- kernel/linux_thread.c: the locks, the waiting and the wake-ups under the Linux drivers.
pub mod Mutex
pub mod Exclusion
pub mod Kthread
pub mod Stopping
pub mod Waiting
pub mod Sleeping
pub mod Completion
pub mod Completing
