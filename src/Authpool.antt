-- ===== src/Authpool.antt =====
-- internal/authpool: the pool of authentication profiles, its monitor and its persisted form.
pub mod Status
pub mod Pool
pub mod Monitor
pub mod Persist
