-- ===== src/Discovery.antt =====
-- internal/discovery: what a machine already schedules.
pub mod Entries
pub mod Names
pub mod Schedule
pub mod Crontab
pub mod Sources
pub mod Timers
pub mod Units
mod Examples
