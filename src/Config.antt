-- ===== src/Config.antt =====
-- internal/config: the users that a machine's configuration lets work run as.
pub mod RunAs
pub mod File
pub mod Credential
mod FileExamples
