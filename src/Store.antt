-- ===== src/Store.antt =====
-- crates/kn9t-store: the event log in SQLite, its projections, and the plan of a request.
pub mod Plan
pub mod Live
pub mod Database
pub mod Project
pub mod Session
pub mod Reproject
pub mod Snapshot
pub mod Fork
pub mod Deletion
