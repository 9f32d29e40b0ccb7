-- ===== src/Registration/Frame.antt =====
-- The calls of contracts/registration/src/lib.rs that leave the directory, the spent tickets and the
-- number of scouts alone.
use scout_off_contracts.Prelude.{ℕ, ◌≡◌, arith}
use scout_off_contracts.Shared.Types.{Address, Hash, Text}
use scout_off_contracts.Shared.Admin.{require_admin}
use scout_off_contracts.Contract.{ok}
use scout_off_contracts.Registration.Types.{Env, State}
use scout_off_contracts.Registration.Storage.{load_stored_player}
use scout_off_contracts.Registration.Admin.{
  propose_admin, accept_admin, pause_contract, unpause_contract, set_reg_cooldown, upgrade,
  set_progress_contract, restore_player_record, restore_scout_record,
}
use scout_off_contracts.Registration.Players.{deactivate_player, reactivate_player}
use scout_off_contracts.Registration.Scouts.{
  load_scout, deactivate_scout, reactivate_scout, verify_scout, unverify_scout,
}
use scout_off_contracts.Registration.Directory.Owned.{SameDirectory}

pub record Quiet (s t : State) : Type 0 where
  pub directory : SameDirectory s t
  pub nonces : t.migration_nonce ≡ s.migration_nonce
  pub scouts : t.live_scout_count ≡ s.live_scout_count

module _ (env : Env) {s t : State} {u : Unit {0}} where
  pub propose_admin-Quiet : (a : Address) → propose_admin env a s ≡ ok (u, t) → Quiet s t
  unfolding propose_admin require_admin
  propose_admin-Quiet a e = ground arith

  pub accept_admin-Quiet : accept_admin env s ≡ ok (u, t) → Quiet s t
  unfolding accept_admin
  accept_admin-Quiet e = ground arith

  pub pause_contract-Quiet : pause_contract env s ≡ ok (u, t) → Quiet s t
  unfolding pause_contract require_admin
  pause_contract-Quiet e = ground arith

  pub unpause_contract-Quiet : unpause_contract env s ≡ ok (u, t) → Quiet s t
  unfolding unpause_contract require_admin
  unpause_contract-Quiet e = ground arith

  pub set_reg_cooldown-Quiet : (n : ℕ) → set_reg_cooldown env n s ≡ ok (u, t) → Quiet s t
  unfolding set_reg_cooldown require_admin
  set_reg_cooldown-Quiet n e = ground arith

  pub upgrade-Quiet : (h : Hash) → upgrade env h s ≡ ok (u, t) → Quiet s t
  unfolding upgrade require_admin
  upgrade-Quiet h e = ground arith

  pub set_progress_contract-Quiet :
      (a : Address) → set_progress_contract env a s ≡ ok (u, t) → Quiet s t
  unfolding set_progress_contract require_admin
  set_progress_contract-Quiet a e = ground arith

  pub restore_player_record-Quiet :
      (id : ℕ) → restore_player_record env id s ≡ ok (u, t) → Quiet s t
  unfolding restore_player_record require_admin
  restore_player_record-Quiet id e = ground arith

  pub restore_scout_record-Quiet : (id : ℕ) → restore_scout_record env id s ≡ ok (u, t) → Quiet s t
  unfolding restore_scout_record require_admin
  restore_scout_record-Quiet id e = ground arith

  pub deactivate_player-Quiet : (id : ℕ) → deactivate_player env id s ≡ ok (u, t) → Quiet s t
  unfolding deactivate_player require_admin load_stored_player
  deactivate_player-Quiet id e = ground arith

  pub reactivate_player-Quiet : (id : ℕ) → reactivate_player env id s ≡ ok (u, t) → Quiet s t
  unfolding reactivate_player require_admin load_stored_player
  reactivate_player-Quiet id e = ground arith

  pub deactivate_scout-Quiet : (id : ℕ) → deactivate_scout env id s ≡ ok (u, t) → Quiet s t
  unfolding deactivate_scout require_admin
  deactivate_scout-Quiet id e = ground arith

  pub reactivate_scout-Quiet : (id : ℕ) → reactivate_scout env id s ≡ ok (u, t) → Quiet s t
  unfolding reactivate_scout require_admin
  reactivate_scout-Quiet id e = ground arith

  pub verify_scout-Quiet : (id : ℕ) → verify_scout env id s ≡ ok (u, t) → Quiet s t
  unfolding verify_scout require_admin load_scout
  verify_scout-Quiet id e = ground arith

  pub unverify_scout-Quiet :
      (id : ℕ) (reason : Text) → unverify_scout env id reason s ≡ ok (u, t) → Quiet s t
  unfolding unverify_scout require_admin load_scout
  unverify_scout-Quiet id reason e = ground arith
