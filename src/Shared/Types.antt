-- ===== src/Shared/Types.antt =====
-- The players' data and the health report of contracts/shared-types/src/lib.rs.
use scout_off_contracts.Prelude.{ℕ, Bool, List}
use scout_off_contracts.Shared.Level.{Level}

-- A host address, known only by its identity.
abbrev pub Address : Type 0
Address = ℕ

-- `BytesN<32>`, as its bytes.
abbrev pub Hash : Type 0
Hash = List ℕ

-- A text, as its bytes.
abbrev pub Text : Type 0
Text = List ℕ

pub record ContractHealth : Type 0 where
  pub initialized : Bool
  pub paused : Bool
  pub pay_to_contact_paused : Bool
  pub migration_window_open : Bool

pub record PlayerVitals : Type 0 where
  pub age : ℕ
  pub position : Text
  pub region : Text
  pub nationality : Text

pub record StoredPlayerProfile : Type 0 where
  pub player_id : ℕ
  pub wallet : Address
  pub vitals : PlayerVitals
  pub ipfs_hashes : List Text
  pub registered_at : ℕ
  pub updated_at : ℕ

pub record PlayerProfile : Type 0 where
  pub player_id : ℕ
  pub wallet : Address
  pub vitals : PlayerVitals
  pub ipfs_hashes : List Text
  pub level : Level
  pub registered_at : ℕ
  pub updated_at : ℕ

pub record PlayerSummary : Type 0 where
  pub player_id : ℕ
  pub vitals : PlayerVitals
  pub level : Level
  pub updated_at : ℕ

abbrev pub max_reg_cooldown_secs : ℕ
max_reg_cooldown_secs = 604800
