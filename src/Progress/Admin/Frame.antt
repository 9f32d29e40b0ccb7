-- ===== src/Progress/Admin/Frame.antt =====
-- The administrative calls of contracts/progress/src/lib.rs and the players' records.
use scout_off_contracts.Prelude.{ℕ, ◌≡◌, arith}
use scout_off_contracts.Shared.Admin.{require_admin}
use scout_off_contracts.Contract.{ok}
use scout_off_contracts.Progress.Types.{Address, Hash, Env, State}
use scout_off_contracts.Progress.Storage.{require_initialized, require_migration_active}
use scout_off_contracts.Progress.History.Invariant.{SameFor}
use scout_off_contracts.Progress.Admin.{
  initialize, set_registration_contract, set_verification_contract, set_scout_access_contract,
  pause_contract, unpause_contract, propose_admin, accept_admin, upgrade, open_migration_window,
  close_migration_window,
}

module _ (env : Env) (player_id : ℕ) {s t : State} {u : Unit {0}} where
  pub initialize-SameFor :
      (admin : Address) → initialize env admin s ≡ ok (u, t) → SameFor player_id s t
  unfolding initialize
  initialize-SameFor admin e = ground arith

  pub pause_contract-SameFor : pause_contract env s ≡ ok (u, t) → SameFor player_id s t
  unfolding pause_contract require_admin
  pause_contract-SameFor e = ground arith

  pub unpause_contract-SameFor : unpause_contract env s ≡ ok (u, t) → SameFor player_id s t
  unfolding unpause_contract require_admin
  unpause_contract-SameFor e = ground arith

  pub set_registration_contract-SameFor :
      (addr : Address) → set_registration_contract env addr s ≡ ok (u, t) → SameFor player_id s t
  unfolding set_registration_contract require_admin
  set_registration_contract-SameFor addr e = ground arith

  pub accept_admin-SameFor : accept_admin env s ≡ ok (u, t) → SameFor player_id s t
  unfolding accept_admin
  accept_admin-SameFor e = ground arith

  pub set_verification_contract-SameFor :
      (addr : Address) → set_verification_contract env addr s ≡ ok (u, t) → SameFor player_id s t
  unfolding set_verification_contract require_admin
  set_verification_contract-SameFor addr e = ground arith

  pub set_scout_access_contract-SameFor :
      (addr : Address) → set_scout_access_contract env addr s ≡ ok (u, t) → SameFor player_id s t
  unfolding set_scout_access_contract require_admin
  set_scout_access_contract-SameFor addr e = ground arith

  pub propose_admin-SameFor :
      (new_admin : Address) → propose_admin env new_admin s ≡ ok (u, t) → SameFor player_id s t
  unfolding propose_admin require_admin
  propose_admin-SameFor new_admin e = ground arith

  pub upgrade-SameFor :
      (new_wasm_hash : Hash) → upgrade env new_wasm_hash s ≡ ok (u, t) → SameFor player_id s t
  unfolding upgrade require_admin
  upgrade-SameFor new_wasm_hash e = ground arith

  pub open_migration_window-SameFor :
      open_migration_window env s ≡ ok (u, t) → SameFor player_id s t
  unfolding open_migration_window require_admin require_initialized
  open_migration_window-SameFor e = ground arith

  pub close_migration_window-SameFor :
      close_migration_window env s ≡ ok (u, t) → SameFor player_id s t
  unfolding close_migration_window require_admin require_initialized require_migration_active
  close_migration_window-SameFor e = ground arith
