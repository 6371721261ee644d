-- ===== src/Command.antt =====
-- The two programs of cmd/: their options, and `run` from the options to the end.
pub mod Flags
pub mod Options
pub mod Agent
pub mod AgentRun
pub mod Released
pub mod Server
pub mod ServerRun
pub mod Served
