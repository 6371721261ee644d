-- ===== src/NetPolicy.antt =====
-- The package internal/netpolicy: the compilation of the ACL and its firewall chain.
pub mod Compile
pub mod Firewall
pub mod Install
pub mod Chain
pub mod Loops
pub mod Flows
pub mod Groups
pub mod Rules
pub mod Policy
pub mod Total
pub mod Forwarding
