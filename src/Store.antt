-- ===== src/Store.antt =====
-- internal/store: the tables of runs, phases, intents, bullets, envelopes and changes.
pub mod Types
pub mod Changes
pub mod Rows
pub mod Bullets
pub mod Advance
pub mod Derive
pub mod Runs
pub mod Phases
pub mod Reconcile
pub mod WellFormed
pub mod Writes
pub mod Methods
pub mod Restarts
pub mod Calls
pub mod Replay
pub mod Advanced
pub mod Advancing
pub mod Outcome
pub mod Seal
pub mod Dispatch
pub mod Restart
pub mod InPlace
pub mod World
pub mod Retention
pub mod Analytics
pub mod Rotation
pub mod Tally
pub mod Rollups
pub mod Conserved
pub mod Chosen
pub mod Rotated
pub mod Measures
pub mod Pass
pub mod Artifacts
pub mod Horizon
pub mod Examples
pub mod Retained
