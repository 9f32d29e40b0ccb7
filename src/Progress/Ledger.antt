-- ===== src/Progress/Ledger.antt =====
-- The contract on the ledger: calls arrive one after the other, a call that returns is committed, and
-- one that fails or traps is rolled back.
pub mod History
pub mod Window
use scout_off_contracts.Prelude.{ℕ, Option, none, some, List, [], ◌∷◌}
use scout_off_contracts.Shared.Level.{Level}
use scout_off_contracts.Contract.{Outcome, ok, err, trap}
use scout_off_contracts.Progress.Types.{Address, Hash, Env, State, ProgressError}
use scout_off_contracts.Progress.Admin.{
  initialize, set_registration_contract, set_verification_contract, set_scout_access_contract,
  pause_contract, unpause_contract, propose_admin, accept_admin, upgrade, open_migration_window,
  close_migration_window,
}
use scout_off_contracts.Progress.Levels.{advance_level, advance_level_for_scout, reset_player_level}

-- The entry points that change the storage, but for seeding, erasure and schema migration.
pub data Request : Type 0 where
  initialize_request propose_request : Address → Request
  set_registration_request set_verification_request set_scout_access_request : Address → Request
  pause_request unpause_request accept_request open_window_request close_window_request : Request
  upgrade_request : Hash → Request
  advance_request advance_for_scout_request : Address → ℕ → ℕ → Request
  reset_request : ℕ → Level → Request

-- The state that a call commits.
abbrev pub commit : {A : Type 0} → State → Outcome ProgressError (A × State) → State
commit s (ok (a, t)) = t
commit s (err e) = s
commit s trap = s

unfoldable pub serve : Env → Request → State → State
serve env (initialize_request admin) s = commit s (initialize env admin s)
serve env (propose_request new_admin) s = commit s (propose_admin env new_admin s)
serve env (set_registration_request addr) s = commit s (set_registration_contract env addr s)
serve env (set_verification_request addr) s = commit s (set_verification_contract env addr s)
serve env (set_scout_access_request addr) s = commit s (set_scout_access_contract env addr s)
serve env pause_request s = commit s (pause_contract env s)
serve env unpause_request s = commit s (unpause_contract env s)
serve env accept_request s = commit s (accept_admin env s)
serve env open_window_request s = commit s (open_migration_window env s)
serve env close_window_request s = commit s (close_migration_window env s)
serve env (upgrade_request new_wasm_hash) s = commit s (upgrade env new_wasm_hash s)
serve env (advance_request caller player_id milestone_ref) s =
    commit s (advance_level env caller player_id milestone_ref s)
serve env (advance_for_scout_request scout player_id milestone_ref) s =
    commit s (advance_level_for_scout env scout player_id milestone_ref s)
serve env (reset_request player_id target_level) s =
    commit s (reset_player_level env player_id target_level s)

unfoldable pub run : List (Env × Request) → State → State
unfolding serve
run [] s = s
run ((env, request) ∷ calls) s = run calls (serve env request s)

-- The storage before the first call.
abbrev pub empty : State
empty = record {
  admin = none;
  pending_admin = none;
  initialized = none;
  paused = none;
  player_level = λ _. none;
  history_counter = λ _. none;
  history_entry = λ _ _. none;
  history_vec = λ _. none;
  history_page = λ _ _. none;
  history_root = λ _. none;
  history_frontier = λ _. none;
  verification_contract = none;
  registration_contract = none;
  scout_access_contract = none;
  verification_epoch = none;
  registration_epoch = none;
  scout_access_epoch = none;
  schema_version = none;
  migration_cursor = none;
  migration_processed = none;
  migration_active = none;
  migration_window_sealed = none;
  effects = [];
}
