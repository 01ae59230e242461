-- ===== src/Ke.antt =====
-- boron/source/ke: the kernel core.
pub mod Dispatcher
pub mod Scheduler
