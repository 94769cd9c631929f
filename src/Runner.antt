-- ===== src/Runner.antt =====
-- internal/runner: the limits a run is held to and the termination of its process.
pub mod Process
pub mod Limits
mod Examples
