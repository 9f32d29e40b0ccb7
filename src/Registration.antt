-- ===== src/Registration.antt =====
-- contracts/registration: the registration contract.
pub mod Types
pub mod Text
pub mod Storage
pub mod Admin
pub mod Players
pub mod Seeding
pub mod Scouts
pub mod Migration
pub mod Queries
pub mod Discovery
pub mod Indexes
pub mod Directory
pub mod Register
pub mod Changes
pub mod Seeded
pub mod Guards
pub mod Redeemed
pub mod Frame
pub mod Ledger
pub mod ScoutSteps
pub mod Collisions
pub mod Entered
pub mod Levelled
pub mod Lookup
pub mod Tests
