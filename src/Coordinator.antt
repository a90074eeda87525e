-- ===== src/Coordinator.antt =====
-- internal/coordinator: the recovery of panes that have hit a rate limit.
pub mod Pane
pub mod Poll
pub mod Respond
