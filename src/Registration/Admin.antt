-- ===== src/Registration/Admin.antt =====
-- Initialisation, admin transfer, pausing, cooldown, upgrade, wiring and record restoration of
-- contracts/registration/src/lib.rs.
use scout_off_contracts.Prelude.{
  ℕ, Bool, true, false, not, none, some, ltb, if◌then◌else◌, or_default, is_some,
}
use scout_off_contracts.Shared.Types.{Address, Hash, ContractHealth, max_reg_cooldown_secs}
use scout_off_contracts.Shared.Wiring.{
  read_wiring_link, write_wiring_link, verify_peer, is_configured,
}
use scout_off_contracts.Contract.{get_state, modify, fail_if, or_fail, or_trap, skip, ◌>>=◌, ◌>>◌}
use scout_off_contracts.Registration.Types.{
  Env, State, Call, RegistrationWiringState, already_initialized, not_initialized,
  pending_admin_not_set, invalid_cooldown, invalid_peer_contract, player_record_evicted,
  scout_record_evicted, admin_transfer_proposed, admin_transferred, paused_event, unpaused_event,
  reg_cooldown_updated, contract_upgraded, updated_wasm, wiring_updated, player_record_restored,
  scout_record_restored,
}
use scout_off_contracts.Registration.Storage.{admin_auth, auth, emit, get_reg_cooldown}

unfoldable pub init_state : Address → State → State
init_state admin s = record s {
  admin = some admin;
  initialized = some true;
  paused = some false;
  player_counter = some 0;
  scout_counter = some 0;
  live_player_count = some 0;
  live_scout_count = some 0;
}

-- `__constructor`.
unfoldable pub construct : Address → Call (Unit {0})
unfolding init_state
construct admin = modify (init_state admin)

unfoldable pub initialize : Env → Address → Call (Unit {0})
unfolding init_state
initialize env admin = do
  s ← get_state
  fail_if (is_some s.initialized) already_initialized
  auth env admin
  modify (init_state admin)

unfoldable pub propose_admin : Env → Address → Call (Unit {0})
propose_admin env new_admin = do
  old_admin ← admin_auth env
  modify (λ t. record t { pending_admin = some new_admin })
  emit (admin_transfer_proposed old_admin new_admin)

-- The deprecated alias.
unfoldable pub transfer_admin : Env → Address → Call (Unit {0})
unfolding propose_admin
transfer_admin env new_admin = propose_admin env new_admin

unfoldable pub accept_admin : Env → Call (Unit {0})
accept_admin env = do
  s ← get_state
  old_admin ← or_fail s.admin not_initialized
  new_admin ← or_fail s.pending_admin pending_admin_not_set
  auth env new_admin
  modify (λ t. record t { admin = some new_admin; pending_admin = none })
  emit (admin_transferred old_admin new_admin)

unfoldable pub pause_contract : Env → Call (Unit {0})
pause_contract env = do
  admin ← admin_auth env
  s ← get_state
  if or_default false s.paused
      then skip
      else (do modify (λ t. record t { paused = some true }); emit (paused_event admin))

unfoldable pub unpause_contract : Env → Call (Unit {0})
unpause_contract env = do
  admin ← admin_auth env
  s ← get_state
  if not (or_default false s.paused)
      then skip
      else (do modify (λ t. record t { paused = some false }); emit (unpaused_event admin))

unfoldable pub set_reg_cooldown : Env → ℕ → Call (Unit {0})
unfolding get_reg_cooldown
set_reg_cooldown env cooldown_secs = do
  admin ← admin_auth env
  fail_if (ltb max_reg_cooldown_secs cooldown_secs) invalid_cooldown
  s ← get_state
  modify (λ t. record t { reg_cooldown_secs = some cooldown_secs })
  emit (reg_cooldown_updated admin (get_reg_cooldown s) cooldown_secs)

unfoldable pub upgrade : Env → Hash → Call (Unit {0})
upgrade env new_wasm_hash = do
  admin ← admin_auth env
  emit (contract_upgraded admin new_wasm_hash)
  emit (updated_wasm new_wasm_hash)

unfoldable pub set_progress_contract : Env → Address → Call (Unit {0})
unfolding write_wiring_link
set_progress_contract env addr = do
  admin ← admin_auth env
  fail_if (not (verify_peer (env.peer addr) "progress" 0)) invalid_peer_contract
  s ← get_state
  let link = write_wiring_link s.progress_contract_epoch addr
  modify (λ t. record t { progress_contract = link.0; progress_contract_epoch = some link.1 })
  emit (wiring_updated admin addr link.1)

unfoldable pub get_wiring_state : State → RegistrationWiringState
unfolding read_wiring_link
get_wiring_state s = record {
  progress_contract = read_wiring_link s.progress_contract s.progress_contract_epoch;
}

unfoldable pub is_fully_wired : RegistrationWiringState → Bool
unfolding is_configured
is_fully_wired w = is_configured w.progress_contract

unfoldable pub health : State → ContractHealth
health s = record {
  initialized = or_default false s.initialized;
  paused = or_default false s.paused;
  pay_to_contact_paused = false;
  migration_window_open = false;
}

-- The stored profile is read as a `PlayerProfile`.
unfoldable pub restore_player_record : Env → ℕ → Call (Unit {0})
restore_player_record env player_id = do
  admin ← admin_auth env
  s ← get_state
  stored ← or_fail (s.player player_id) player_record_evicted
  or_trap (env.read_as_profile stored)
  emit (player_record_restored admin player_id)

unfoldable pub restore_scout_record : Env → ℕ → Call (Unit {0})
restore_scout_record env scout_id = do
  admin ← admin_auth env
  s ← get_state
  or_fail (s.scout scout_id) scout_record_evicted
  emit (scout_record_restored admin scout_id)
