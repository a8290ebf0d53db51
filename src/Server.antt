-- ===== src/Server.antt =====
-- The crate kn9t-server: who may write to a session, and how a client catches up with it.
pub mod Lease
pub mod Attach
pub mod Turns
pub mod Approval
