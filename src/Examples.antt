-- ===== src/Examples.antt =====
-- Runs of the models at concrete inputs.
pub mod Pools
pub mod Monitors
pub mod Syncs
pub mod Rotations
pub mod Panes
pub mod Retries
pub mod Vaults
pub mod Projects
pub mod Machines
