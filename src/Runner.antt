-- ===== src/Runner.antt =====
-- internal/runner: gates, agent phases and the capture of their artifacts.
pub mod Types
pub mod Capture
pub mod Phases
pub mod Silent
pub mod Handoff
pub mod Attempts
pub mod Calm
pub mod Gains
pub mod Bounds
