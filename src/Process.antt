-- ===== src/Process.antt =====
-- src/process, src/util/semaphore.c: processes, the scheduler and semaphores.
pub mod State
pub mod Scheduler
