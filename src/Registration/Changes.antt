-- ===== src/Registration/Changes.antt =====
-- The calls of contracts/registration/src/lib.rs that change or erase a stored player: their guards
-- and their writes.
use scout_off_contracts.Prelude.{
  ℕ, ◌≤◌, ◌≡◌, true, false, some, List, ◌∷◌, or_default, length, arith, update, inl, inr,
  Option-cases,
}
use scout_off_contracts.Shared.Level.{Level, unverified}
use scout_off_contracts.Shared.Types.{Address, Text, StoredPlayerProfile}
use scout_off_contracts.Shared.Admin.{require_admin}
use scout_off_contracts.Contract.{ok}
use scout_off_contracts.Registration.Types.{
  Env, State, player_level_synced, player_deregistered, profile_updated, max_ipfs_hashes,
}
use scout_off_contracts.Registration.Storage.{
  require_initialized, require_not_paused, load_stored_player, log,
}
use scout_off_contracts.Registration.Players.{
  leave_level, enter_level, leave_buckets, erase_player, player_index_remove, store_level,
  set_player_level, deregister_player, update_profile, count_down,
}

-- A level change that returned: by the configured progress contract, for a stored player.
pub record WasSet (env : Env) (player_id : ℕ) (level : Level) (s t : State) : Type 0 where
  pub caller : Address
  pub stored : StoredPlayerProfile
  pub configured : s.progress_contract ≡ some caller
  pub authorized : env.authorized caller ≡ true
  pub found : s.player player_id ≡ some stored
  pub written :
      t
      ≡ log (player_level_synced player_id caller level) (
          store_level player_id
            (record stored { updated_at = env.timestamp })
            level
            (enter_level level stored.vitals.region player_id
              (leave_buckets (s.player_level player_id) stored.vitals.region player_id s)))

-- An erasure that returned: by the administrator, of a stored player.
pub record WasErased (env : Env) (player_id : ℕ) (s t : State) : Type 0 where
  pub admin : Address
  pub stored : StoredPlayerProfile
  pub appointed : s.admin ≡ some admin
  pub authorized : env.authorized admin ≡ true
  pub found : s.player player_id ≡ some stored
  pub written :
      let level = or_default unverified (s.player_level player_id) in
      t
      ≡ log (player_deregistered player_id level stored.vitals.region admin) (
          count_down (
            leave_level level stored.vitals.region player_id
              (player_index_remove player_id (erase_player player_id stored.wallet s))))

-- A profile update that returned: by the player's wallet, on a live contract.
pub record WasUpdated (env : Env) (player_id : ℕ) (ipfs_hashes : List Text) (s t : State)
    : Type 0 where
  pub stored : StoredPlayerProfile
  pub running : or_default false s.paused ≡ false
  pub found : s.player player_id ≡ some stored
  pub authorized : env.authorized stored.wallet ≡ true
  pub some_hashes : 1 ≤ length ipfs_hashes
  pub few_hashes : length ipfs_hashes ≤ max_ipfs_hashes
  pub written : t ≡ record s {
    player =
        update s.player player_id
          (record stored { ipfs_hashes = ipfs_hashes; updated_at = env.timestamp });
    effects = profile_updated player_id stored.wallet ∷ s.effects;
  }

module _ (env : Env) (player_id : ℕ) (s t : State) where
  -- A `set_player_level` that returned had the authorisation of the configured progress contract and
  -- found the player; it moved the player between the level indexes and stored the level.
  pub set_player_level-WasSet :
      (level : Level)
      → set_player_level env player_id level s ≡ ok (tt, t)
      → WasSet env player_id level s t
  unfolding set_player_level load_stored_player
  set_player_level-WasSet level e = elim (Option-cases s.progress_contract) [
    | inl missing ↦ absurd (ground (arith, missing))
    | inr (caller, configured) ↦ elim (Option-cases (s.player player_id)) [
      | inl missing ↦ absurd (ground (arith, configured, missing))
      | inr (stored, found) ↦ record {
        caller = caller;
        stored = stored;
        configured = configured;
        authorized = ground (arith, configured);
        found = found;
        written = ground (arith, configured, found);
      }
    ]
  ]

  pub deregister_player-WasErased :
      deregister_player env player_id s ≡ ok (tt, t) → WasErased env player_id s t
  unfolding deregister_player load_stored_player require_admin
  deregister_player-WasErased e = elim (Option-cases s.admin) [
    | inl missing ↦ absurd (ground (arith, missing))
    | inr (admin, appointed) ↦ elim (Option-cases (s.player player_id)) [
      | inl missing ↦ absurd (ground (arith, appointed, missing))
      | inr (stored, found) ↦ record {
        admin = admin;
        stored = stored;
        appointed = appointed;
        authorized = ground (arith, appointed);
        found = found;
        written = ground (arith, appointed, found);
      }
    ]
  ]

  pub update_profile-WasUpdated :
      (ipfs_hashes : List Text)
      → update_profile env player_id ipfs_hashes s ≡ ok (tt, t)
      → WasUpdated env player_id ipfs_hashes s t
  unfolding update_profile load_stored_player require_not_paused require_initialized
  update_profile-WasUpdated ipfs_hashes e = elim (Option-cases (s.player player_id)) [
    | inl missing ↦ absurd (ground (arith, missing))
    | inr (stored, found) ↦ record {
      stored = stored;
      running = ground arith;
      found = found;
      authorized = ground (arith, found);
      some_hashes = ground arith;
      few_hashes = ground arith;
      written = ground (arith, found);
    }
  ]
