-- ===== src/Engine.antt =====
-- internal/dag/engine.go: the worktrees, the stages and the evidence of a run.
pub mod Types
pub mod Worktrees
pub mod Stages
pub mod Evidence
pub mod Gates
pub mod Observed
pub mod Green
pub mod Resumed
pub mod Examples
