-- ===== src/Registration/Ledger/Carried.antt =====
-- The spent tickets and the number of scouts of contracts/registration/src/lib.rs over sequences of
-- requests.
use scout_off_contracts.Prelude.{
  ℕ, ◌≤◌, ◌≡◌, refl, sym, subst, true, some, List, [], ◌∷◌, or_default, arith, Option-cases, inl,
  inr,
}
use scout_off_contracts.Shared.Level.{Level}
use scout_off_contracts.Shared.Types.{Address, Text, PlayerVitals}
use scout_off_contracts.Contract.{Outcome, ok, err, trap}
use scout_off_contracts.Registration.Types.{
  Env, State, ScoutChainError, MigrationAuthorization, max_scouts,
}
use scout_off_contracts.Registration.Storage.{
  log, composite_index_add, composite_index_remove, level_index_add, level_index_remove,
  set_region_bucket, set_level_bucket,
}
use scout_off_contracts.Registration.Admin.{initialize}
use scout_off_contracts.Registration.Players.{
  enter_player, store_player, push_player_index, store_level, enter_level, leave_buckets,
  leave_level, player_index_remove, erase_player, count_down,
}
use scout_off_contracts.Registration.Migration.{mark_migration_nonce}
use scout_off_contracts.Registration.Register.{Registered, register_player-Registered}
use scout_off_contracts.Registration.Changes.{
  WasSet, WasErased, WasUpdated, set_player_level-WasSet, deregister_player-WasErased,
  update_profile-WasUpdated,
}
use scout_off_contracts.Registration.Seeded.{admin_seed_player-Seeded}
use scout_off_contracts.Registration.Redeemed.{RedeemedPlayer, redeem_migration_player-Redeemed}
use scout_off_contracts.Registration.ScoutSteps.{
  ScoutStep, RedeemedScout, register_scout-ScoutStep, admin_seed_scout-ScoutStep,
  deregister_scout-ScoutStep, redeem_migration_scout-RedeemedScout,
}
use scout_off_contracts.Registration.Frame.{
  Quiet, propose_admin-Quiet, accept_admin-Quiet, pause_contract-Quiet, unpause_contract-Quiet,
  set_reg_cooldown-Quiet, upgrade-Quiet, set_progress_contract-Quiet, restore_player_record-Quiet,
  restore_scout_record-Quiet, deactivate_player-Quiet, reactivate_player-Quiet,
  deactivate_scout-Quiet, reactivate_scout-Quiet, verify_scout-Quiet, unverify_scout-Quiet,
}
use scout_off_contracts.Registration.Ledger.{
  Request, initialize_request, propose_request, accept_request, pause_request, unpause_request,
  cooldown_request, upgrade_request, set_progress_request, restore_player_request,
  restore_scout_request, register_player_request, update_profile_request, set_level_request,
  deregister_player_request, deactivate_player_request, reactivate_player_request,
  seed_player_request, redeem_player_request, register_scout_request, seed_scout_request,
  redeem_scout_request, deregister_scout_request, deactivate_scout_request,
  reactivate_scout_request, verify_scout_request, unverify_scout_request, commit, serve, run,
}

-- Spent tickets stay spent, and the number of scouts stays within its bound.
pub record Carries (s t : State) : Type 0 where
  pub nonces :
      (wallet : Address) (nonce : ℕ)
      → s.migration_nonce wallet nonce ≡ some true
      → t.migration_nonce wallet nonce ≡ some true
  pub scouts :
      or_default 0 s.live_scout_count ≤ max_scouts → or_default 0 t.live_scout_count ≤ max_scouts

module _ {s t : State} where
  -- Neither is touched.
  same-Carries :
      t.migration_nonce ≡ s.migration_nonce → t.live_scout_count ≡ s.live_scout_count → Carries s t
  same-Carries nonces scouts = record {
    nonces = λ w n spent. cc (nonces, spent);
    scouts = λ h. subst (λ c. or_default 0 c ≤ max_scouts) (sym scouts) h;
  }

  step-Carries : ScoutStep s t → Carries s t
  step-Carries step = record {
    nonces = λ w n spent. cc (step.nonces, spent);
    scouts = step.bounded;
  }

mark-Carries :
    (wallet : Address) (nonce : ℕ) (s : State) → Carries s (mark_migration_nonce wallet nonce s)
unfolding mark_migration_nonce
mark-Carries wallet nonce s = record {
  nonces = λ w n spent. ground (arith, spent);
  scouts = λ h. h;
}

Carries-trans : {s t u : State} → Carries s t → Carries t u → Carries s u
Carries-trans a b = record {
  nonces = λ w n spent. b.nonces w n (a.nonces w n spent);
  scouts = λ h. b.scouts (a.scouts h);
}

Carries-refl : (s : State) → Carries s s
Carries-refl s = same-Carries refl refl

commit-Carries :
    {A : Type 0} {s : State} (o : Outcome ScoutChainError (A × State))
    → ((a : A) (t : State) → o ≡ ok (a, t) → Carries s t)
    → Carries s (commit s o)
commit-Carries (ok (a, t)) k = k a t refl
commit-Carries {s = s} (err e) k = Carries-refl s
commit-Carries {s = s} trap k = Carries-refl s

commit-Carries-Quiet :
    {A : Type 0} {s : State} (o : Outcome ScoutChainError (A × State))
    → ((a : A) (t : State) → o ≡ ok (a, t) → Quiet s t)
    → Carries s (commit s o)
commit-Carries-Quiet o k = commit-Carries o λ a t e. same-Carries (k a t e).nonces (k a t e).scouts

commit-Carries_scouts :
    {A : Type 0} {s : State} (o : Outcome ScoutChainError (A × State))
    → ((a : A) (t : State) → o ≡ ok (a, t) → ScoutStep s t)
    → Carries s (commit s o)
commit-Carries_scouts o k = commit-Carries o λ a t e. step-Carries (k a t e)

module _ (env : Env) {s t : State} where
  initialize-Carries :
      (admin : Address) {u : Unit {0}} → initialize env admin s ≡ ok (u, t) → Carries s t
  unfolding initialize
  initialize-Carries admin e = record {
    nonces = λ w n spent. ground (arith, spent);
    scouts = λ h. ground arith;
  }

  Registered-Carries :
      (wallet : Address) (vitals : PlayerVitals) (ipfs_hashes : List Text) (player_id : ℕ)
      → Registered env wallet vitals ipfs_hashes player_id s t
      → Carries s t
  unfolding enter_player store_player push_player_index composite_index_add level_index_add
      set_region_bucket set_level_bucket
  Registered-Carries wallet vitals ipfs_hashes player_id r =
      subst (Carries s) (sym r.written) (same-Carries refl refl)

  WasSet-Carries : (player_id : ℕ) (level : Level) → WasSet env player_id level s t → Carries s t
  unfolding store_level enter_level leave_buckets leave_level composite_index_add level_index_add
      composite_index_remove level_index_remove set_region_bucket set_level_bucket
  WasSet-Carries player_id level r = elim (Option-cases (s.player_level player_id)) [
    | inl missing ↦ subst (Carries s) (sym r.written) (same-Carries (rw missing) (rw missing))
    | inr (known, stored) ↦ subst (Carries s) (sym r.written) (same-Carries (rw stored) (rw stored))
  ]

  WasErased-Carries : (player_id : ℕ) → WasErased env player_id s t → Carries s t
  unfolding count_down leave_level player_index_remove erase_player composite_index_remove
      level_index_remove
  WasErased-Carries player_id r = subst (Carries s) (sym r.written) (same-Carries refl refl)

  WasUpdated-Carries :
      (player_id : ℕ) (ipfs_hashes : List Text)
      → WasUpdated env player_id ipfs_hashes s t
      → Carries s t
  WasUpdated-Carries player_id ipfs_hashes r =
      subst (Carries s) (sym r.written) (same-Carries refl refl)

  Redeemed-Carries :
      (wallet : Address) (vitals : PlayerVitals) (ipfs_hashes : List Text) (level : Level)
      (player_id registered_at updated_at : ℕ) (authorization : MigrationAuthorization)
      → RedeemedPlayer env wallet vitals ipfs_hashes level player_id registered_at updated_at
          authorization s t
      → Carries s t
  Redeemed-Carries wallet vitals ipfs_hashes level player_id registered_at updated_at authorization
        r =
      subst (Carries s) (sym r.written) (
        Carries-trans (mark-Carries wallet authorization.nonce s)
          (same-Carries {t = log _ r.after} r.seeded.nonces r.seeded.scouts))

  RedeemedScout-Carries :
      (wallet : Address) (scout_id : ℕ) (authorization : MigrationAuthorization)
      → RedeemedScout env s t wallet scout_id authorization
      → Carries s t
  RedeemedScout-Carries wallet scout_id authorization r = subst (Carries s) (sym r.written) (
      Carries-trans (mark-Carries wallet authorization.nonce s)
        (Carries-trans (step-Carries r.step) (same-Carries {t = log _ r.after} refl refl)))

module _ (env : Env) (s : State) where
  pub serve-Carries : (request : Request) → Carries s (serve env request s)
  unfolding serve
  serve-Carries (initialize_request admin) =
      commit-Carries _ λ u t e. initialize-Carries env admin e
  serve-Carries (propose_request new_admin) =
      commit-Carries-Quiet _ λ u t e. propose_admin-Quiet env new_admin e
  serve-Carries accept_request = commit-Carries-Quiet _ λ u t e. accept_admin-Quiet env e
  serve-Carries pause_request = commit-Carries-Quiet _ λ u t e. pause_contract-Quiet env e
  serve-Carries unpause_request = commit-Carries-Quiet _ λ u t e. unpause_contract-Quiet env e
  serve-Carries (cooldown_request cooldown_secs) =
      commit-Carries-Quiet _ λ u t e. set_reg_cooldown-Quiet env cooldown_secs e
  serve-Carries (upgrade_request new_wasm_hash) =
      commit-Carries-Quiet _ λ u t e. upgrade-Quiet env new_wasm_hash e
  serve-Carries (set_progress_request addr) =
      commit-Carries-Quiet _ λ u t e. set_progress_contract-Quiet env addr e
  serve-Carries (restore_player_request player_id) =
      commit-Carries-Quiet _ λ u t e. restore_player_record-Quiet env player_id e
  serve-Carries (restore_scout_request scout_id) =
      commit-Carries-Quiet _ λ u t e. restore_scout_record-Quiet env scout_id e
  serve-Carries (register_player_request wallet vitals ipfs_hashes) =
      commit-Carries _ λ player_id t e.
        Registered-Carries env wallet vitals ipfs_hashes player_id
          (register_player-Registered env wallet vitals ipfs_hashes player_id s t e)
  serve-Carries (update_profile_request player_id ipfs_hashes) = commit-Carries _ λ u t e.
      WasUpdated-Carries env player_id ipfs_hashes
        (update_profile-WasUpdated env player_id s t ipfs_hashes e)
  serve-Carries (set_level_request player_id level) = commit-Carries _ λ u t e.
      WasSet-Carries env player_id level (set_player_level-WasSet env player_id s t level e)
  serve-Carries (deregister_player_request player_id) =
      commit-Carries _
        λ u t e. WasErased-Carries env player_id (deregister_player-WasErased env player_id s t e)
  serve-Carries (deactivate_player_request player_id) =
      commit-Carries-Quiet _ λ u t e. deactivate_player-Quiet env player_id e
  serve-Carries (reactivate_player_request player_id) =
      commit-Carries-Quiet _ λ u t e. reactivate_player-Quiet env player_id e
  serve-Carries
        (seed_player_request wallet vitals ipfs_hashes level player_id registered_at updated_at) =
      commit-Carries _ λ id t e.
        (let r =
            admin_seed_player-Seeded env wallet vitals ipfs_hashes level player_id registered_at
              updated_at id s t e in
          same-Carries r.nonces r.scouts)
  serve-Carries
        (redeem_player_request wallet vitals ipfs_hashes level player_id registered_at updated_at
          authorization) =
      commit-Carries _ λ id t e.
        Redeemed-Carries env wallet vitals ipfs_hashes level player_id registered_at updated_at
          authorization
          (redeem_migration_player-Redeemed env wallet vitals ipfs_hashes level player_id
            registered_at updated_at authorization id s t e)
  serve-Carries (register_scout_request wallet region) =
      commit-Carries_scouts _ λ id t e. register_scout-ScoutStep env s t wallet region id e
  serve-Carries (seed_scout_request wallet region scout_id registered_at verified) =
      commit-Carries_scouts _ λ id t e.
        admin_seed_scout-ScoutStep env s t wallet region scout_id registered_at verified id e
  serve-Carries (redeem_scout_request wallet region scout_id registered_at verified authorization) =
      commit-Carries _ λ id t e. RedeemedScout-Carries env wallet scout_id authorization (
        redeem_migration_scout-RedeemedScout env s t wallet region scout_id registered_at verified
          authorization id e)
  serve-Carries (deregister_scout_request scout_id) =
      commit-Carries_scouts _ λ u t e. deregister_scout-ScoutStep env s t scout_id e
  serve-Carries (deactivate_scout_request scout_id) =
      commit-Carries-Quiet _ λ u t e. deactivate_scout-Quiet env scout_id e
  serve-Carries (reactivate_scout_request scout_id) =
      commit-Carries-Quiet _ λ u t e. reactivate_scout-Quiet env scout_id e
  serve-Carries (verify_scout_request scout_id) =
      commit-Carries-Quiet _ λ u t e. verify_scout-Quiet env scout_id e
  serve-Carries (unverify_scout_request scout_id reason) =
      commit-Carries-Quiet _ λ u t e. unverify_scout-Quiet env scout_id reason e

pub run-Carries : (calls : List (Env × Request)) (s : State) → Carries s (run calls s)
unfolding run
run-Carries [] s = Carries-refl s
run-Carries ((env, request) ∷ calls) s =
    Carries-trans (serve-Carries env s request) (run-Carries calls (serve env request s))

-- The live number of scouts never exceeds 10,000: if it does not before, it does not after any
-- sequence of requests.
pub run_scouts_bounded :
    (calls : List (Env × Request)) (s : State)
    → or_default 0 s.live_scout_count ≤ max_scouts
    → or_default 0 (run calls s).live_scout_count ≤ max_scouts
run_scouts_bounded calls s h = (run-Carries calls s).scouts h
