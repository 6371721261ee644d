-- ===== src/ControlPlane.antt =====
-- The package internal/controlplane: the management server.
pub mod Roles
pub mod Auth
pub mod Random
pub mod Server
pub mod Declared
pub mod Enrolment
pub mod Access
pub mod Peers
