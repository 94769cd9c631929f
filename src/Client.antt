-- ===== src/Client.antt =====
-- internal/client: the errors of a request (errors.go), the wait between two attempts and the
-- retry loop (backoff.go).
pub mod Errors
pub mod Calls
pub mod Backoff
pub mod Retry
pub mod Whole
mod Examples
mod CallExamples
