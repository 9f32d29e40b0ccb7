-- ===== src/Registration/Types.antt =====
-- contracts/registration/src/types.rs, errors.rs and events.rs: the data of the registration
-- contract, its storage with one field for each `DataKey`, and what the host and the peers give.
use scout_off_contracts.Prelude.{ℕ, Bool, Option, List}
use scout_off_contracts.Shared.Level.{Level}
use scout_off_contracts.Shared.Types.{Address, Hash, Text, StoredPlayerProfile, PlayerProfile}
use scout_off_contracts.Shared.Wiring.{WiringLink, Peer}
use scout_off_contracts.Contract.{Action}

pub data MigrationRole : Type 0 where
  player_role scout_role : MigrationRole

pub record MigrationAuthorization : Type 0 where
  pub wallet : Address
  pub role : MigrationRole
  pub profile_data_hash : Hash
  pub new_contract_hint : Address
  pub nonce : ℕ
  pub expires_at : ℕ
  pub signature : List ℕ

pub record FilterResult : Type 0 where
  pub profiles : List PlayerProfile
  pub next_cursor : ℕ
  pub has_more : Bool

pub data PlayerStatus : Type 0 where
  player_active player_inactive : PlayerStatus

pub data ScoutStatus : Type 0 where
  scout_active scout_inactive scout_not_registered : ScoutStatus

pub record ScoutVerificationRecord : Type 0 where
  pub verified : Bool
  pub verified_by : Option Address
  pub verified_at : Option ℕ
  pub evidence_ref : Option Text
  pub method : Option Text
  pub revoked_at : Option ℕ
  pub revoked_reason : Option Text

pub record ScoutProfile : Type 0 where
  pub scout_id : ℕ
  pub wallet : Address
  pub region : Text
  pub verified : Bool
  pub verification : ScoutVerificationRecord
  pub registered_at : ℕ

pub record RegistrationWiringState : Type 0 where
  pub progress_contract : WiringLink

pub data ScoutChainError : Type 0 where
  already_initialized not_initialized contract_paused : ScoutChainError
  validator_not_authorized unauthorized : ScoutChainError
  already_registered player_not_found scout_not_found player_cap_reached : ScoutChainError
  invalid_progress_transition scout_not_subscribed insufficient_fee : ScoutChainError
  invalid_input overflow pending_admin_not_set registration_cooldown : ScoutChainError
  player_record_evicted scout_record_evicted invalid_cooldown : ScoutChainError
  scout_cap_reached invalid_peer_contract : ScoutChainError

-- What a call does outside its storage, in order: the events of events.rs and the replacement of the
-- code.
pub data Effect : Type 0 where
  player_registered scout_registered profile_updated : ℕ → Address → Effect
  scout_deregistered : ℕ → Address → Address → Effect
  player_deregistered : ℕ → Level → Text → Address → Effect
  player_deactivated_event player_reactivated_event : ℕ → Address → Effect
  player_level_synced : ℕ → Address → Level → Effect
  scout_verified : ℕ → Address → Effect
  scout_unverified : ℕ → Address → Address → Effect
  contract_upgraded : Address → Hash → Effect
  scout_deactivated_event scout_reactivated_event : ℕ → Address → Effect
  admin_transfer_proposed admin_transferred : Address → Address → Effect
  reg_cooldown_updated : Address → ℕ → ℕ → Effect
  migration_redeemed : Address → MigrationRole → ℕ → Address → Effect
  wiring_updated : Address → Address → ℕ → Effect
  player_record_restored scout_record_restored : Address → ℕ → Effect
  paused_event unpaused_event : Address → Effect
  updated_wasm : Hash → Effect

-- One field for each `DataKey` that the contract uses; a key with arguments is a function of them,
-- and an absent key is `none`. `effects` is newest first.
pub record State : Type 0 where
  pub admin : Option Address
  pub pending_admin : Option Address
  pub initialized : Option Bool
  pub paused : Option Bool
  pub player_counter : Option ℕ
  pub scout_counter : Option ℕ
  pub live_player_count : Option ℕ
  pub live_scout_count : Option ℕ
  pub player : ℕ → Option StoredPlayerProfile
  pub player_by_wallet : Address → Option ℕ
  pub scout : ℕ → Option ScoutProfile
  pub scout_by_wallet : Address → Option ℕ
  pub player_index : Option (List ℕ)
  pub progress_contract : Option Address
  pub progress_contract_epoch : Option ℕ
  pub player_level : ℕ → Option Level
  pub players_by_level_region : Level → Text → Option (List ℕ)
  pub players_by_level : Level → Option (List ℕ)
  pub player_deactivated : ℕ → Option Bool
  pub player_reg_last_sent : Address → Option ℕ
  pub scout_reg_last_sent : Address → Option ℕ
  pub reg_cooldown_secs : Option ℕ
  pub migration_nonce : Address → ℕ → Option Bool
  pub scout_deactivated : ℕ → Option Bool
  pub effects : List Effect

-- The host's hash, its text of an address, the ed25519 key of an account address, and its check of a
-- signature by a key over a message.
pub record Host : Type 0 where
  pub sha256 : List ℕ → Hash
  pub address_to_string : Address → Text
  pub account_key : Address → Option Hash
  pub ed25519_valid : Hash → List ℕ → List ℕ → Bool

-- What a call is given: the host, the ledger's time, who has authorised the call, how the contracts
-- at other addresses answer, and how the SDK reads a stored profile as a `PlayerProfile`; a `none`
-- of the last two is a trap.
pub record Env : Type 0 where
  pub host : Host
  pub timestamp : ℕ
  pub authorized : Address → Bool
  pub peer : Address → Peer
  pub get_level : Address → ℕ → Option Level
  pub read_as_profile : StoredPlayerProfile → Option PlayerProfile

abbrev pub Call : Type 0 → Type 0
Call = Action State ScoutChainError

-- Constants of lib.rs.
abbrev pub max_region_len : ℕ
max_region_len = 100

abbrev pub max_string_len : ℕ
max_string_len = 64

abbrev pub max_ipfs_hashes : ℕ
max_ipfs_hashes = 10

abbrev pub max_batch_size : ℕ
max_batch_size = 20

abbrev pub max_player_age : ℕ
max_player_age = 100

abbrev pub max_players : ℕ
max_players = 10000

abbrev pub max_scouts : ℕ
max_scouts = 10000

abbrev pub min_player_age : ℕ
min_player_age = 16

abbrev pub default_reg_cooldown_secs : ℕ
default_reg_cooldown_secs = 86400
