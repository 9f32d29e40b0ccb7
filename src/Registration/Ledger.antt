-- ===== src/Registration/Ledger.antt =====
-- The registration contract on the ledger: calls arrive one after the other, a call that returns is
-- committed, and one that fails or traps is rolled back.
pub mod Carried
pub mod Directories
pub mod Tickets
use scout_off_contracts.Prelude.{ℕ, ◌≤◌, Bool, none, List, [], ◌∷◌, or_default}
use scout_off_contracts.Shared.Level.{Level}
use scout_off_contracts.Shared.Types.{Address, Hash, Text, PlayerVitals}
use scout_off_contracts.Contract.{Outcome, ok, err, trap}
use scout_off_contracts.Registration.Types.{Env, State, ScoutChainError, MigrationAuthorization}
use scout_off_contracts.Registration.Admin.{
  initialize, propose_admin, accept_admin, pause_contract, unpause_contract, set_reg_cooldown,
  upgrade, set_progress_contract, restore_player_record, restore_scout_record,
}
use scout_off_contracts.Registration.Players.{
  register_player, update_profile, set_player_level, deregister_player, deactivate_player,
  reactivate_player,
}
use scout_off_contracts.Registration.Seeding.{admin_seed_player}
use scout_off_contracts.Registration.Scouts.{
  register_scout, admin_seed_scout, deregister_scout, deactivate_scout, reactivate_scout,
  verify_scout, unverify_scout,
}
use scout_off_contracts.Registration.Migration.{redeem_migration_player, redeem_migration_scout}

-- The entry points that change the storage.
pub data Request : Type 0 where
  initialize_request propose_request set_progress_request : Address → Request
  accept_request pause_request unpause_request : Request
  cooldown_request restore_player_request restore_scout_request : ℕ → Request
  deregister_player_request deactivate_player_request reactivate_player_request : ℕ → Request
  deregister_scout_request deactivate_scout_request reactivate_scout_request : ℕ → Request
  verify_scout_request : ℕ → Request
  upgrade_request : Hash → Request
  register_player_request : Address → PlayerVitals → List Text → Request
  update_profile_request : ℕ → List Text → Request
  set_level_request : ℕ → Level → Request
  seed_player_request : Address → PlayerVitals → List Text → Level → ℕ → ℕ → ℕ → Request
  redeem_player_request :
      Address → PlayerVitals → List Text → Level → ℕ → ℕ → ℕ → MigrationAuthorization → Request
  register_scout_request : Address → Text → Request
  seed_scout_request : Address → Text → ℕ → ℕ → Bool → Request
  redeem_scout_request : Address → Text → ℕ → ℕ → Bool → MigrationAuthorization → Request
  unverify_scout_request : ℕ → Text → Request

-- The state that a call commits.
abbrev pub commit : {A : Type 0} → State → Outcome ScoutChainError (A × State) → State
commit s (ok (a, t)) = t
commit s (err e) = s
commit s trap = s

unfoldable pub serve : Env → Request → State → State
serve env (initialize_request admin) s = commit s (initialize env admin s)
serve env (propose_request new_admin) s = commit s (propose_admin env new_admin s)
serve env accept_request s = commit s (accept_admin env s)
serve env pause_request s = commit s (pause_contract env s)
serve env unpause_request s = commit s (unpause_contract env s)
serve env (cooldown_request cooldown_secs) s = commit s (set_reg_cooldown env cooldown_secs s)
serve env (upgrade_request new_wasm_hash) s = commit s (upgrade env new_wasm_hash s)
serve env (set_progress_request addr) s = commit s (set_progress_contract env addr s)
serve env (restore_player_request player_id) s = commit s (restore_player_record env player_id s)
serve env (restore_scout_request scout_id) s = commit s (restore_scout_record env scout_id s)
serve env (register_player_request wallet vitals ipfs_hashes) s =
    commit s (register_player env wallet vitals ipfs_hashes s)
serve env (update_profile_request player_id ipfs_hashes) s =
    commit s (update_profile env player_id ipfs_hashes s)
serve env (set_level_request player_id level) s = commit s (set_player_level env player_id level s)
serve env (deregister_player_request player_id) s = commit s (deregister_player env player_id s)
serve env (deactivate_player_request player_id) s = commit s (deactivate_player env player_id s)
serve env (reactivate_player_request player_id) s = commit s (reactivate_player env player_id s)
serve env (seed_player_request wallet vitals ipfs_hashes level player_id registered_at updated_at)
      s =
    commit s
      (admin_seed_player env wallet vitals ipfs_hashes level player_id registered_at updated_at s)
serve env
      (redeem_player_request wallet vitals ipfs_hashes level player_id registered_at updated_at
        authorization)
      s =
    commit s (
      redeem_migration_player env wallet vitals ipfs_hashes level player_id registered_at updated_at
        authorization s)
serve env (register_scout_request wallet region) s = commit s (register_scout env wallet region s)
serve env (seed_scout_request wallet region scout_id registered_at verified) s =
    commit s (admin_seed_scout env wallet region scout_id registered_at verified s)
serve env (redeem_scout_request wallet region scout_id registered_at verified authorization) s =
    commit s
      (redeem_migration_scout env wallet region scout_id registered_at verified authorization s)
serve env (deregister_scout_request scout_id) s = commit s (deregister_scout env scout_id s)
serve env (deactivate_scout_request scout_id) s = commit s (deactivate_scout env scout_id s)
serve env (reactivate_scout_request scout_id) s = commit s (reactivate_scout env scout_id s)
serve env (verify_scout_request scout_id) s = commit s (verify_scout env scout_id s)
serve env (unverify_scout_request scout_id reason) s =
    commit s (unverify_scout env scout_id reason s)

unfoldable pub run : List (Env × Request) → State → State
unfolding serve
run [] s = s
run ((env, request) ∷ calls) s = run calls (serve env request s)

-- The storage before the first call.
abbrev pub empty : State
empty = record {
  admin = none;
  pending_admin = none;
  initialized = none;
  paused = none;
  player_counter = none;
  scout_counter = none;
  live_player_count = none;
  live_scout_count = none;
  player = λ _. none;
  player_by_wallet = λ _. none;
  scout = λ _. none;
  scout_by_wallet = λ _. none;
  player_index = none;
  progress_contract = none;
  progress_contract_epoch = none;
  player_level = λ _. none;
  players_by_level_region = λ _ _. none;
  players_by_level = λ _. none;
  player_deactivated = λ _. none;
  player_reg_last_sent = λ _. none;
  scout_reg_last_sent = λ _. none;
  reg_cooldown_secs = none;
  migration_nonce = λ _ _. none;
  scout_deactivated = λ _. none;
  effects = [];
}
