-- ===== src/AgentCore.antt =====
-- The package internal/agentcore: the agent's registration and its reconciliation loop.
pub mod Config
pub mod Enrolment
pub mod Startup
pub mod Retries
pub mod Reconcile
pub mod Cycles
pub mod Converged
pub mod Run
pub mod Spokes
pub mod Deferred
pub mod Exits
