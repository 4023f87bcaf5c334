-- ===== src/Suite.antt =====
-- The crate's own tests as programs: the `tests` modules of the source files and
-- tests/integration.rs, with a failed assertion or `unwrap` as a panic.
pub mod Accidents
pub mod Steps
pub mod Slots
pub mod Keys
pub mod Vault
pub mod Lawful
