-- ===== src/Thread.antt =====
-- thread_wrapper of schedulers/triton/lib/thread_wrapper.cc and its header.
pub mod State
pub mod Work
pub mod Body
pub mod Flushing
pub mod Runs
pub mod Calls
pub mod Draining
pub mod Kept
pub mod Exiting
pub mod Answers
pub mod Stopping
pub mod Sustained
pub mod Stoppable
pub mod Killed
pub mod Faultless
pub mod Ending
pub mod Parameters
pub mod Liveness
pub mod Flushed
pub mod Invariant
pub mod Lifecycle
pub mod Phases
pub mod Seen
pub mod Refines
