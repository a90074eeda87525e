-- ===== src/Vault.antt =====
-- internal/authfile: the vault of auth files.
pub mod Names
pub mod Copying
pub mod Operations
pub mod Detection
pub mod Automatic
pub mod Copies
pub mod Counts
pub mod RoundTrip
pub mod Protected
pub mod Original
pub mod Active
pub mod Detected
