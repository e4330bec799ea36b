-- ===== src/Runtime.antt =====
-- residual/runtime: the execution of a task by a provider's engine.
pub mod Policy
