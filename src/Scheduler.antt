-- ===== src/Scheduler.antt =====
-- scheduler_triton of schedulers/triton/lib/scheduler_triton.cc and its header.
pub mod State
pub mod Started
pub mod Ended
