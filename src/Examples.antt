-- ===== src/Examples.antt =====
-- The theorems at a small network: a hub, a laptop and a server.
mod Sample
mod Policy
mod Install
mod Enrolment
mod Spec
mod Names
mod Watch
mod Git
mod Device
mod Agent
mod Cycle
mod Removal
mod Link
mod Peers
mod Routes
mod Telemetry
mod Programs
