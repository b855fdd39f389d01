-- ===== src/Monel.antt =====
-- Monitored elements: argus/monel.
pub mod Aggregate
pub mod Stats
pub mod State
pub mod Children
pub mod Determine
pub mod Transition
pub mod Override
pub mod Tree
pub mod Tasks
pub mod Invariant
