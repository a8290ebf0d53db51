-- ===== src/React.antt =====
-- crates/kn9t-react: the turns of a session.
pub mod Attempts
pub mod Tools
pub mod Turn
