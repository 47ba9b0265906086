-- ===== src/Server.antt =====
-- internal/ui: what the server makes of a run's outcome, of a merged change request and of a
-- repository's workflow.
pub mod Terminal
pub mod Merge
pub mod Stages
pub mod Workflow
pub mod FreshId
pub mod Graph
pub mod Execute
pub mod Ended
pub mod Corrected
pub mod Shipping
mod Examples
mod Runs
