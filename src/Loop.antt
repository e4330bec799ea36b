-- ===== src/Loop.antt =====
-- residual/factory/loop_runtime: the host-owned loop around the factory. One module for each file
-- of the package.
pub mod State
pub mod Goal
pub mod Progress
pub mod Policy
pub mod Controller
mod Tests
