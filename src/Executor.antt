-- ===== src/Executor.antt =====
-- graph_executor of schedulers/triton/lib/graph_executor.cc and its header, in the order in which
-- an iteration runs.
pub mod Ports
pub mod Work
pub mod Iteration
pub mod Inputs
pub mod Rounding
pub mod Outputs
pub mod Blocked
pub mod Dry
pub mod Clogged
pub mod Statuses
pub mod Loops
pub mod Checked
pub mod Behaved
pub mod Returns
pub mod Total
pub mod NoRoom
pub mod Totals
pub mod Quiet
pub mod Unclogging
pub mod Accounting
pub mod Posts
pub mod Idle
pub mod Turns
pub mod Order
