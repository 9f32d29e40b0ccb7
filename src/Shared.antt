-- ===== src/Shared.antt =====
-- contracts/shared-types/src/lib.rs: types and helpers that the four contracts share.
pub mod Level
pub mod Types
pub mod SafeMath
pub mod Wiring
pub mod Admin
pub mod Cid
mod Tests
