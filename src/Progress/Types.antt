-- ===== src/Progress/Types.antt =====
-- contracts/progress/src/types.rs, errors.rs and events.rs: the data of the progress contract, its
-- storage with one field for each `DataKey`, and what the host and the peers give to a call.
use scout_off_contracts.Prelude.{ℕ, Bool, Option, List}
use scout_off_contracts.Shared.Level.{Level}
pub use scout_off_contracts.Prelude.{update, remove, update₂, remove₂}
pub use scout_off_contracts.Shared.Types.{Address, Hash, ContractHealth}
use scout_off_contracts.Shared.Wiring.{WiringLink, Peer}
use scout_off_contracts.Contract.{Action}

pub record ProgressEntry : Type 0 where
  pub player_id : ℕ
  pub old_level : Level
  pub new_level : Level
  pub updated_by : Address
  pub updated_at : ℕ
  pub milestone_ref : ℕ
  pub ledger_sequence : ℕ

pub record HistoryProofStep : Type 0 where
  pub sibling : Hash
  pub sibling_is_right : Bool

pub record FrontierPeak : Type 0 where
  pub level : ℕ
  pub hash : Hash

pub record HistorySince : Type 0 where
  pub entries : List ProgressEntry
  pub truncated : Bool

pub record ProgressWiringState : Type 0 where
  pub registration_contract : WiringLink
  pub verification_contract : WiringLink
  pub scout_access_contract : WiringLink

pub record MigrationStatus : Type 0 where
  pub from : ℕ
  pub to : ℕ
  pub code : ℕ
  pub current : ℕ
  pub pending : Bool
  pub complete : Bool
  pub last_visited_id : ℕ
  pub processed : ℕ

pub data ProgressError : Type 0 where
  already_initialized not_initialized contract_paused unauthorized : ProgressError
  invalid_progress_transition already_at_max_level player_not_found overflow : ProgressError
  registration_call_failed pending_admin_not_set migration_not_active : ProgressError
  history_already_exists merkle_root_mismatch invalid_history_index : ProgressError
  player_level_record_evicted history_entry_not_found history_too_long_for_proof : ProgressError
  no_level_change registration_not_configured player_not_registered : ProgressError
  migration_window_sealed schema_version_too_new unknown_schema_target : ProgressError
  seed_player_mismatch seed_level_discontinuity seed_timestamp_regression : ProgressError
  invalid_peer_contract history_root_missing : ProgressError

pub data Link : Type 0 where
  registration_link verification_link scout_access_link : Link

-- What a call does outside its storage, in order: the events of events.rs, the synchronising call
-- of the registration contract, and the replacement of the code.
pub data Effect : Type 0 where
  progress_updated : ℕ → Level → Level → Address → ℕ → Effect
  player_level_reset : Address → ℕ → Level → Level → Effect
  admin_transfer_proposed : Address → Address → Effect
  admin_transferred : Address → Address → Effect
  wiring_updated : Address → Link → Address → ℕ → Effect
  paused_event : Address → Effect
  unpaused_event : Address → Effect
  player_level_record_restored : Address → ℕ → Effect
  player_data_purged : Address → ℕ → ℕ → Bool → Effect
  migration_window_opened : Address → Effect
  migration_window_closed : Address → Effect
  contract_upgraded : Address → Hash → Effect
  schema_migrated : ℕ → ℕ → Effect
  called_set_player_level : Address → ℕ → Level → Effect
  updated_wasm : Hash → Effect

-- One field for each `DataKey`; a key with arguments is a function of them, and an absent key is
-- `none`. `effects` is newest first.
pub record State : Type 0 where
  pub admin : Option Address
  pub pending_admin : Option Address
  pub initialized : Option Bool
  pub paused : Option Bool
  pub player_level : ℕ → Option Level
  pub history_counter : ℕ → Option ℕ
  pub history_entry : ℕ → ℕ → Option ProgressEntry
  pub history_vec : ℕ → Option (List ProgressEntry)
  pub history_page : ℕ → ℕ → Option (List ProgressEntry)
  pub history_root : ℕ → Option Hash
  pub history_frontier : ℕ → Option (List FrontierPeak)
  pub verification_contract : Option Address
  pub registration_contract : Option Address
  pub scout_access_contract : Option Address
  pub verification_epoch : Option ℕ
  pub registration_epoch : Option ℕ
  pub scout_access_epoch : Option ℕ
  pub schema_version : Option ℕ
  pub migration_cursor : Option ℕ
  pub migration_processed : Option ℕ
  pub migration_active : Option Bool
  pub migration_window_sealed : Option Bool
  pub effects : List Effect

-- How `try_set_player_level` of the registration contract ends.
pub data SyncReply : Type 0 where
  synced player_unknown other_failure : SyncReply

-- The host's hash, and its encoding of addresses.
pub record Host : Type 0 where
  pub sha256 : List ℕ → Hash
  pub address_xdr : Address → List ℕ

-- What a call is given: the host, the ledger, who has authorised the call, and how the contracts at
-- other addresses answer.
pub record Env : Type 0 where
  pub host : Host
  pub timestamp : ℕ
  pub sequence : ℕ
  pub authorized : Address → Bool
  pub peer : Address → Peer
  pub set_player_level_reply : Address → ℕ → Level → SyncReply
  pub milestone_count : Address → ℕ → Option ℕ

abbrev pub Call : Type 0 → Type 0
Call = Action State ProgressError

-- Constants of lib.rs and types.rs.
abbrev pub history_page_size : ℕ
history_page_size = 8

abbrev pub code_schema_version : ℕ
code_schema_version = 1
