-- ===== src/Progress.antt =====
-- The progress contract, contracts/progress/src.
pub mod Types
pub mod Hashing
pub mod Merkle
pub mod Storage
pub mod History
pub mod Levels
pub mod Admin
pub mod Queries
pub mod Seeding
pub mod Schema
pub mod Ledger
pub mod Tests
