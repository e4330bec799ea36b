-- ===== src/Core.antt =====
-- residual/core.py: the contracts that the other packages share.
pub mod Obligation
pub mod Identifier
pub mod Task
pub mod Context
