-- ===== src/Shared/Level.antt =====
-- `ProgressLevel` of contracts/shared-types/src/lib.rs.
use scout_off_contracts.Prelude.{ℕ, ◌≡◌, Bool, true, Option, none, some, arith, ◌==◌, ◌↔◌}

pub data Level : Type 0 where
  unverified verified_identity performance_milestones elite_tier : Level

unfoldable pub rank : Level → ℕ
rank unverified = 0
rank verified_identity = 1
rank performance_milestones = 2
rank elite_tier = 3

unfoldable pub next : Level → Option Level
next unverified = some verified_identity
next verified_identity = some performance_milestones
next performance_milestones = some elite_tier
next elite_tier = none

-- The derived `PartialEq`.
unfoldable pub level_eq : Level → Level → Bool
unfolding rank
level_eq a b = rank a == rank b

pub level_eq_iff : (a b : Level) → (level_eq a b ≡ true) ↔ (a ≡ b)
unfolding level_eq
level_eq_iff a b = ground arith
