-- ===== src/Agent.antt =====
-- internal/agent: how the agent polls for leases, starts processes and reports outcomes.
pub mod Types
pub mod Registry
pub mod Outcomes
pub mod Terms
pub mod Lease
pub mod Polling
pub mod Reporter
pub mod Delivery
pub mod Traces
pub mod Startup
pub mod Discoveries
pub mod Samples
mod Examples
mod LoopExamples
mod DrainExamples
mod PollExamples
