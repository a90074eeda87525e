-- ===== src/Sync.antt =====
-- internal/sync: the sync of profiles between machines.
pub mod State
pub mod Freshness
pub mod Decision
pub mod Merge
pub mod Files
pub mod Run
pub mod Throttle
pub mod Background
pub mod Machines
