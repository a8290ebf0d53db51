-- ===== src/Provider.antt =====
-- crates/kn9t-provider-core: what all providers share.
pub mod Assemble
pub mod Retry
