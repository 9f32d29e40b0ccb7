-- ===== src/Progress/Admin.antt =====
-- Initialisation, pausing, wiring, admin transfer, upgrade and migration window of
-- contracts/progress/src/lib.rs.
pub mod Frame
use Prim.Native.String.{String}
use scout_off_contracts.Prelude.{
  ℕ, Bool, true, false, not, ◌&&◌, Option, none, some, if◌then◌else◌, or_default, is_some,
}
use scout_off_contracts.Shared.Wiring.{
  WiringLink, read_wiring_link, write_wiring_link, verify_peer, is_configured,
}
use scout_off_contracts.Contract.{get_state, modify, fail_if, or_fail, pure, skip, ◌>>=◌, ◌>>◌}
use scout_off_contracts.Progress.Types.{
  Address, Hash, Env, State, Call, Link, registration_link, verification_link, scout_access_link,
  ProgressWiringState, ContractHealth, admin_transfer_proposed, admin_transferred, wiring_updated,
  paused_event, unpaused_event, migration_window_opened, migration_window_closed, contract_upgraded,
  updated_wasm, already_initialized, not_initialized, pending_admin_not_set, invalid_peer_contract,
  migration_window_sealed, code_schema_version,
}
use scout_off_contracts.Progress.Storage.{
  admin_auth, auth, emit, require_initialized, require_migration_active,
}

unfoldable pub init_state : Address → State → State
init_state admin s = record s {
  admin = some admin;
  initialized = some true;
  paused = some false;
  schema_version = some code_schema_version;
}

-- `__constructor`.
unfoldable pub construct : Address → Call (Unit {0})
unfolding init_state
construct admin = modify (init_state admin)

unfoldable pub initialize : Env → Address → Call (Unit {0})
unfolding init_state
initialize env admin = do
  s ← get_state
  fail_if (is_some s.initialized) already_initialized
  auth env admin
  modify (init_state admin)

unfoldable pub set_registration_contract : Env → Address → Call (Unit {0})
unfolding write_wiring_link
set_registration_contract env addr = do
  admin ← admin_auth env
  fail_if (not (verify_peer (env.peer addr) "registration" 0)) invalid_peer_contract
  s ← get_state
  let link = write_wiring_link s.registration_epoch addr
  modify (λ t. record t { registration_contract = link.0; registration_epoch = some link.1 })
  emit (wiring_updated admin registration_link addr link.1)

unfoldable pub set_verification_contract : Env → Address → Call (Unit {0})
unfolding write_wiring_link
set_verification_contract env addr = do
  admin ← admin_auth env
  fail_if (not (verify_peer (env.peer addr) "verification" 0)) invalid_peer_contract
  s ← get_state
  let link = write_wiring_link s.verification_epoch addr
  modify (λ t. record t { verification_contract = link.0; verification_epoch = some link.1 })
  emit (wiring_updated admin verification_link addr link.1)

unfoldable pub set_scout_access_contract : Env → Address → Call (Unit {0})
unfolding write_wiring_link
set_scout_access_contract env addr = do
  admin ← admin_auth env
  fail_if (not (verify_peer (env.peer addr) "scout_access" 0)) invalid_peer_contract
  s ← get_state
  let link = write_wiring_link s.scout_access_epoch addr
  modify (λ t. record t { scout_access_contract = link.0; scout_access_epoch = some link.1 })
  emit (wiring_updated admin scout_access_link addr link.1)

unfoldable pub pause_contract : Env → Call (Unit {0})
pause_contract env = do
  admin ← admin_auth env
  s ← get_state
  if or_default false s.paused
      then skip
      else (do modify (λ t. record t { paused = some true }); emit (paused_event admin))

unfoldable pub unpause_contract : Env → Call (Unit {0})
unpause_contract env = do
  admin ← admin_auth env
  s ← get_state
  if not (or_default false s.paused)
      then skip
      else (do modify (λ t. record t { paused = some false }); emit (unpaused_event admin))

unfoldable pub propose_admin : Env → Address → Call (Unit {0})
propose_admin env new_admin = do
  old_admin ← admin_auth env
  modify (λ t. record t { pending_admin = some new_admin })
  emit (admin_transfer_proposed old_admin new_admin)

-- The deprecated alias.
unfoldable pub transfer_admin : Env → Address → Call (Unit {0})
unfolding propose_admin
transfer_admin env new_admin = propose_admin env new_admin

unfoldable pub accept_admin : Env → Call (Unit {0})
accept_admin env = do
  s ← get_state
  old_admin ← or_fail s.admin not_initialized
  new_admin ← or_fail s.pending_admin pending_admin_not_set
  auth env new_admin
  modify (λ t. record t { admin = some new_admin; pending_admin = none })
  emit (admin_transferred old_admin new_admin)

unfoldable pub upgrade : Env → Hash → Call (Unit {0})
upgrade env new_wasm_hash = do
  admin ← admin_auth env
  emit (contract_upgraded admin new_wasm_hash)
  emit (updated_wasm new_wasm_hash)

unfoldable pub open_migration_window : Env → Call (Unit {0})
unfolding require_initialized
open_migration_window env = do
  admin ← admin_auth env
  require_initialized
  s ← get_state
  fail_if (or_default false s.migration_window_sealed) migration_window_sealed
  modify (λ t. record t { migration_active = some true })
  emit (migration_window_opened admin)

unfoldable pub close_migration_window : Env → Call (Unit {0})
unfolding require_initialized require_migration_active
close_migration_window env = do
  admin ← admin_auth env
  require_initialized
  require_migration_active
  modify (λ t. record t { migration_active = some false; migration_window_sealed = some true })
  emit (migration_window_closed admin)

unfoldable pub migration_window_is_open : State → Bool
migration_window_is_open s = or_default false s.migration_active

unfoldable pub health : State → ContractHealth
health s = record {
  initialized = or_default false s.initialized;
  paused = or_default false s.paused;
  pay_to_contact_paused = false;
  migration_window_open = or_default false s.migration_active;
}

unfoldable pub get_wiring_state : State → ProgressWiringState
unfolding read_wiring_link
get_wiring_state s = record {
  registration_contract = read_wiring_link s.registration_contract s.registration_epoch;
  verification_contract = read_wiring_link s.verification_contract s.verification_epoch;
  scout_access_contract = read_wiring_link s.scout_access_contract s.scout_access_epoch;
}

unfoldable pub is_fully_wired : ProgressWiringState → Bool
unfolding is_configured
is_fully_wired w =
    is_configured w.registration_contract
    && is_configured w.verification_contract
    && is_configured w.scout_access_contract
