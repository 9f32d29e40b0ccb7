-- ===== src/Shared/Tests.antt =====
-- An identifier of version 0.
use scout_off_contracts.Prelude.{ℕ, List, ◌∷◌, replicate}

abbrev identifier : List ℕ
identifier = b'Q' ∷ b'm' ∷ replicate 44 b'x'
