-- ===== src/Core.antt =====
-- The crate kn9t-core: the vocabulary that every other part of the program shares.
pub mod Message
pub mod Model
pub mod Cost
pub mod Event
pub mod Cache
pub mod Ring
pub mod Hook
pub mod Wildcard
