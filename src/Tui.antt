-- ===== src/Tui.antt =====
-- crates/kn9t-tui: the state of the prompt editor.
pub mod InputHistory
