-- ===== src/Delivery.antt =====
-- internal/store/delivery.go.
pub mod Types
pub mod Rows
pub mod Ops
pub mod Quiet
pub mod Retry
pub mod Settled
pub mod Outcome
pub mod Writes
pub mod Finality
pub mod Sequence
pub mod AppendOnly
pub mod Errors
pub mod Gates
mod Examples
