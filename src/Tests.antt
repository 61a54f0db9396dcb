-- ===== src/Tests.antt =====
-- Runs of the theorems on concrete data, by the part of the program that they are about.
pub mod Fixtures
pub mod Numbers
pub mod Ledger
pub mod Database
pub mod Dispatch
pub mod Bidding
pub mod Proofs
pub mod Startup
pub mod Recovery
pub mod Messages
