-- ===== src/Plugin.antt =====
-- crates/kn9t-plugin: how the answers of several plugins become one.
pub mod Composed
