-- ===== src/Dsm.antt =====
-- residual/dsm: the durable state machine. One module for each file of the package.
pub mod Errors
pub mod Lease
pub mod Journal
pub mod Ownership
pub mod Store
pub mod Delivery
