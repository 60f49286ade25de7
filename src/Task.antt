-- ===== src/Task.antt =====
-- kernel/linux_task.c: work, delayed work and tasklets, their thread, and RCU callbacks.
pub mod Works
pub mod Order
pub mod Cancel
pub mod Rcu
