-- ===== src/Registration/Ledger/Directories.antt =====
-- The directory of contracts/registration/src/lib.rs over sequences of requests.
use scout_off_contracts.Prelude.{◌≤◌, ◌≡◌, refl, sym, subst, List, [], ◌∷◌, or_default}
use scout_off_contracts.Contract.{Outcome, ok, err, trap}
use scout_off_contracts.Registration.Types.{Env, State, ScoutChainError}
use scout_off_contracts.Registration.Storage.{region_bucket, level_bucket}
use scout_off_contracts.Registration.Register.{register_player-Registered}
use scout_off_contracts.Registration.Changes.{
  set_player_level-WasSet, deregister_player-WasErased, update_profile-WasUpdated,
}
use scout_off_contracts.Registration.Seeded.{admin_seed_player-Seeded}
use scout_off_contracts.Registration.Redeemed.{redeem_migration_player-Redeemed}
use scout_off_contracts.Registration.ScoutSteps.{
  ScoutStep, register_scout-ScoutStep, admin_seed_scout-ScoutStep, deregister_scout-ScoutStep,
  redeem_migration_scout-RedeemedScout,
}
use scout_off_contracts.Registration.Directory.{IsDirectory}
use scout_off_contracts.Registration.Directory.Owned.{IsDirectory-Same}
use scout_off_contracts.Registration.Frame.{
  Quiet, propose_admin-Quiet, accept_admin-Quiet, pause_contract-Quiet, unpause_contract-Quiet,
  set_reg_cooldown-Quiet, upgrade-Quiet, set_progress_contract-Quiet, restore_player_record-Quiet,
  restore_scout_record-Quiet, deactivate_player-Quiet, reactivate_player-Quiet,
  deactivate_scout-Quiet, reactivate_scout-Quiet, verify_scout-Quiet, unverify_scout-Quiet,
}
use scout_off_contracts.Registration.Ledger.{
  Request, initialize_request, propose_request, accept_request, pause_request, unpause_request,
  cooldown_request, upgrade_request, set_progress_request, restore_player_request,
  restore_scout_request, register_player_request, update_profile_request, set_level_request,
  deregister_player_request, deactivate_player_request, reactivate_player_request,
  seed_player_request, redeem_player_request, register_scout_request, seed_scout_request,
  redeem_scout_request, deregister_scout_request, deactivate_scout_request,
  reactivate_scout_request, verify_scout_request, unverify_scout_request, commit, serve, run, empty,
}
use scout_off_contracts.Registration.Directory.Calls.{
  log-IsDirectory, mark-SameDirectory, Registered-IsDirectory, Seeded-IsDirectory,
  WasSet-IsDirectory, WasErased-IsDirectory, WasUpdated-IsDirectory, initialize-IsDirectory,
}

-- A call that keeps the directory when it returns keeps it when it is rolled back.
commit-IsDirectory :
    {A : Type 0} {s : State}
    → IsDirectory s
    → (o : Outcome ScoutChainError (A × State))
    → ((a : A) (t : State) → o ≡ ok (a, t) → IsDirectory t)
    → IsDirectory (commit s o)
commit-IsDirectory h (ok (a, t)) k = k a t refl
commit-IsDirectory h (err e) k = h
commit-IsDirectory h trap k = h

commit-IsDirectory-Quiet :
    {A : Type 0} {s : State}
    → IsDirectory s
    → (o : Outcome ScoutChainError (A × State)) → ((a : A) (t : State) → o ≡ ok (a, t) → Quiet s t)
    → IsDirectory (commit s o)
commit-IsDirectory-Quiet h o k =
    commit-IsDirectory h o λ a t e. IsDirectory-Same (k a t e).directory h

commit-IsDirectory_scouts :
    {A : Type 0} {s : State}
    → IsDirectory s
    → (o : Outcome ScoutChainError (A × State))
    → ((a : A) (t : State) → o ≡ ok (a, t) → ScoutStep s t)
    → IsDirectory (commit s o)
commit-IsDirectory_scouts h o k =
    commit-IsDirectory h o λ a t e. IsDirectory-Same (k a t e).directory h

-- Seeding and redemption are asked for an id that the counter has already passed.
unfoldable pub IsAllocated : Request → State → Type 0
IsAllocated (initialize_request admin) s = Unit
IsAllocated (propose_request new_admin) s = Unit
IsAllocated accept_request s = Unit
IsAllocated pause_request s = Unit
IsAllocated unpause_request s = Unit
IsAllocated (cooldown_request cooldown_secs) s = Unit
IsAllocated (upgrade_request new_wasm_hash) s = Unit
IsAllocated (set_progress_request addr) s = Unit
IsAllocated (restore_player_request player_id) s = Unit
IsAllocated (restore_scout_request scout_id) s = Unit
IsAllocated (register_player_request wallet vitals ipfs_hashes) s = Unit
IsAllocated (update_profile_request player_id ipfs_hashes) s = Unit
IsAllocated (set_level_request player_id level) s = Unit
IsAllocated (deregister_player_request player_id) s = Unit
IsAllocated (deactivate_player_request player_id) s = Unit
IsAllocated (reactivate_player_request player_id) s = Unit
IsAllocated (seed_player_request wallet vitals ipfs_hashes level player_id registered_at updated_at)
      s =
    player_id ≤ or_default 0 s.player_counter
IsAllocated
      (redeem_player_request wallet vitals ipfs_hashes level player_id registered_at updated_at
        authorization)
      s =
    player_id ≤ or_default 0 s.player_counter
IsAllocated (register_scout_request wallet region) s = Unit
IsAllocated (seed_scout_request wallet region scout_id registered_at verified) s = Unit
IsAllocated (redeem_scout_request wallet region scout_id registered_at verified authorization) s =
    Unit
IsAllocated (deregister_scout_request scout_id) s = Unit
IsAllocated (deactivate_scout_request scout_id) s = Unit
IsAllocated (reactivate_scout_request scout_id) s = Unit
IsAllocated (verify_scout_request scout_id) s = Unit
IsAllocated (unverify_scout_request scout_id reason) s = Unit

module _ (env : Env) {s : State} (h : IsDirectory s) where
  serve-IsDirectory :
      (request : Request) → IsAllocated request s → IsDirectory (serve env request s)
  unfolding serve IsAllocated
  serve-IsDirectory (initialize_request admin) below =
      commit-IsDirectory h _ λ u t e. initialize-IsDirectory h env admin e
  serve-IsDirectory (propose_request new_admin) below =
      commit-IsDirectory-Quiet h _ λ u t e. propose_admin-Quiet env new_admin e
  serve-IsDirectory accept_request below =
      commit-IsDirectory-Quiet h _ λ u t e. accept_admin-Quiet env e
  serve-IsDirectory pause_request below =
      commit-IsDirectory-Quiet h _ λ u t e. pause_contract-Quiet env e
  serve-IsDirectory unpause_request below =
      commit-IsDirectory-Quiet h _ λ u t e. unpause_contract-Quiet env e
  serve-IsDirectory (cooldown_request cooldown_secs) below =
      commit-IsDirectory-Quiet h _ λ u t e. set_reg_cooldown-Quiet env cooldown_secs e
  serve-IsDirectory (upgrade_request new_wasm_hash) below =
      commit-IsDirectory-Quiet h _ λ u t e. upgrade-Quiet env new_wasm_hash e
  serve-IsDirectory (set_progress_request addr) below =
      commit-IsDirectory-Quiet h _ λ u t e. set_progress_contract-Quiet env addr e
  serve-IsDirectory (restore_player_request player_id) below =
      commit-IsDirectory-Quiet h _ λ u t e. restore_player_record-Quiet env player_id e
  serve-IsDirectory (restore_scout_request scout_id) below =
      commit-IsDirectory-Quiet h _ λ u t e. restore_scout_record-Quiet env scout_id e
  serve-IsDirectory (register_player_request wallet vitals ipfs_hashes) below =
      commit-IsDirectory h _ λ player_id t e.
        Registered-IsDirectory h env wallet vitals ipfs_hashes player_id
          (register_player-Registered env wallet vitals ipfs_hashes player_id s t e)
  serve-IsDirectory (update_profile_request player_id ipfs_hashes) below =
      commit-IsDirectory h _ λ u t e.
        WasUpdated-IsDirectory h env player_id ipfs_hashes
          (update_profile-WasUpdated env player_id s t ipfs_hashes e)
  serve-IsDirectory (set_level_request player_id level) below = commit-IsDirectory h _ λ u t e.
      WasSet-IsDirectory h env player_id level (set_player_level-WasSet env player_id s t level e)
  serve-IsDirectory (deregister_player_request player_id) below = commit-IsDirectory h _ λ u t e.
      WasErased-IsDirectory h env player_id (deregister_player-WasErased env player_id s t e)
  serve-IsDirectory (deactivate_player_request player_id) below =
      commit-IsDirectory-Quiet h _ λ u t e. deactivate_player-Quiet env player_id e
  serve-IsDirectory (reactivate_player_request player_id) below =
      commit-IsDirectory-Quiet h _ λ u t e. reactivate_player-Quiet env player_id e
  serve-IsDirectory
        (seed_player_request wallet vitals ipfs_hashes level player_id registered_at updated_at)
        below =
      commit-IsDirectory h _ λ id t e.
        Seeded-IsDirectory h env wallet vitals ipfs_hashes level player_id registered_at updated_at
          below
          (admin_seed_player-Seeded env wallet vitals ipfs_hashes level player_id registered_at
            updated_at id s t e)
  serve-IsDirectory
        (redeem_player_request wallet vitals ipfs_hashes level player_id registered_at updated_at
          authorization)
        below =
      commit-IsDirectory h _ λ id t e.
        (let r =
            redeem_migration_player-Redeemed env wallet vitals ipfs_hashes level player_id
              registered_at updated_at authorization id s t e in
          let marked = mark-SameDirectory wallet authorization.nonce s in
          subst IsDirectory (sym r.written) (
            log-IsDirectory _ (
              Seeded-IsDirectory (IsDirectory-Same marked h) env wallet r.canon ipfs_hashes level
                player_id registered_at updated_at
                (subst (λ c. player_id ≤ or_default 0 c) (sym marked.player_counter) below)
                r.seeded)))
  serve-IsDirectory (register_scout_request wallet region) below =
      commit-IsDirectory_scouts h _ λ id t e. register_scout-ScoutStep env s t wallet region id e
  serve-IsDirectory (seed_scout_request wallet region scout_id registered_at verified) below =
      commit-IsDirectory_scouts h _ λ id t e.
        admin_seed_scout-ScoutStep env s t wallet region scout_id registered_at verified id e
  serve-IsDirectory
        (redeem_scout_request wallet region scout_id registered_at verified authorization) below =
      commit-IsDirectory h _ λ id t e.
        (let r =
            redeem_migration_scout-RedeemedScout env s t wallet region scout_id registered_at
              verified authorization id e in
          subst IsDirectory (sym r.written) (
            log-IsDirectory _ (
              IsDirectory-Same r.step.directory
                (IsDirectory-Same (mark-SameDirectory wallet authorization.nonce s) h))))
  serve-IsDirectory (deregister_scout_request scout_id) below =
      commit-IsDirectory_scouts h _ λ u t e. deregister_scout-ScoutStep env s t scout_id e
  serve-IsDirectory (deactivate_scout_request scout_id) below =
      commit-IsDirectory-Quiet h _ λ u t e. deactivate_scout-Quiet env scout_id e
  serve-IsDirectory (reactivate_scout_request scout_id) below =
      commit-IsDirectory-Quiet h _ λ u t e. reactivate_scout-Quiet env scout_id e
  serve-IsDirectory (verify_scout_request scout_id) below =
      commit-IsDirectory-Quiet h _ λ u t e. verify_scout-Quiet env scout_id e
  serve-IsDirectory (unverify_scout_request scout_id reason) below =
      commit-IsDirectory-Quiet h _ λ u t e. unverify_scout-Quiet env scout_id reason e

-- Every seeding and redemption of a run is for an allocated id.
unfoldable pub AllAllocated : List (Env × Request) → State → Type 0
AllAllocated [] s = Unit
AllAllocated ((env, request) ∷ calls) s =
    IsAllocated request s × AllAllocated calls (serve env request s)

-- From a state whose keys agree, whatever requests arrive, of which seedings and redemptions of
-- players are for ids that the counter has passed: the profiles, wallets, levels, player index, level
-- indexes and live counter still agree afterwards.
pub run-IsDirectory :
    (calls : List (Env × Request)) (s : State)
    → AllAllocated calls s
    → IsDirectory s
    → IsDirectory (run calls s)
unfolding run AllAllocated
run-IsDirectory [] s allocated h = h
run-IsDirectory ((env, request) ∷ calls) s (now, later) h =
    run-IsDirectory calls (serve env request s) later (serve-IsDirectory env h request now)

-- Before the first call nothing is stored.
pub empty-IsDirectory : IsDirectory empty
unfolding region_bucket level_bucket
empty-IsDirectory = record {
  listed = λ id. record {
    levelled = refl;
    indexed = refl;
    in_region = λ l r. refl;
    in_level = λ l. refl;
  };
  owned = λ id p e. absurd (cc e);
  wallets = λ w id e. absurd (cc e);
  counted = refl;
  unset = λ e. refl;
}
