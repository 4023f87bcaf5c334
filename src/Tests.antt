-- ===== src/Tests.antt =====
-- A concrete instance of the primitives, a small volume, and runs of the theorems on it.
pub mod Toy
pub mod Volume
mod Vaults
mod Tables
mod Codecs
mod Keys
pub mod Commands
mod Access
mod Runs
pub mod Strict
mod Suites
