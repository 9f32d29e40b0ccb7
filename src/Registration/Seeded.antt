-- ===== src/Registration/Seeded.antt =====
-- Seeding and ticket redemption of contracts/registration/src/lib.rs: their guards and their writes.
use scout_off_contracts.Prelude.{
  ℕ, ◌≤◌, ◌≡◌, subst, true, false, none, some, List, [], or_default, arith, ==_refl,
}
use scout_off_contracts.Shared.Level.{Level}
use scout_off_contracts.Shared.Types.{Address, Text, StoredPlayerProfile, PlayerVitals}
use scout_off_contracts.Contract.{ok, >>=-inv}
use scout_off_contracts.Registration.Types.{Env, State, min_player_age, max_player_age}
use scout_off_contracts.Registration.Storage.{
  require_initialized, require_not_paused, has_id, increment_live_player_count, composite_index_add,
  level_index_add, set_region_bucket, set_level_bucket, region_bucket, level_bucket,
}
use scout_off_contracts.Registration.Players.{
  enter_player, store_player, push_player_index, canonicalize_vitals,
}
use scout_off_contracts.Registration.Seeding.{
  check_seed, admin_seed_player, write_seed, seeded_profile,
}
use scout_off_contracts.Registration.Guards.{admin_auth-inv}
use scout_off_contracts.Registration.Register.{IsCanon, entered}

-- A seeding that returned: by the administrator of a live contract, of an unused id and wallet.
pub record Seeded (env : Env) (wallet : Address) (vitals : PlayerVitals) (ipfs_hashes : List Text)
    (level : Level) (player_id registered_at updated_at : ℕ) (s t : State) : Type 0 where
  pub admin : Address
  pub canon : PlayerVitals
  pub appointed : s.admin ≡ some admin
  pub authorized : env.authorized admin ≡ true
  pub initialized : or_default false s.initialized ≡ true
  pub running : or_default false s.paused ≡ false
  pub free : s.player player_id ≡ none
  pub unowned : s.player_by_wallet wallet ≡ none
  pub canonical : IsCanon vitals canon
  pub old_enough : min_player_age ≤ vitals.age
  pub young_enough : vitals.age ≤ max_player_age
  pub written :
      has_id player_id (or_default [] s.player_index) ≡ false
      → t
        ≡ entered
            (seeded_profile wallet canon ipfs_hashes player_id registered_at updated_at)
            level
            s.player_counter
            s.player_reg_last_sent
            s
  pub stored :
      t.player player_id
      ≡ some (seeded_profile wallet canon ipfs_hashes player_id registered_at updated_at)
  pub nonces : t.migration_nonce ≡ s.migration_nonce
  pub scouts : t.live_scout_count ≡ s.live_scout_count

-- The checks of a seeding.
record IsSeedable (wallet : Address) (vitals canon : PlayerVitals) (player_id : ℕ) (s : State)
    : Type 0 where
  initialized : or_default false s.initialized ≡ true
  running : or_default false s.paused ≡ false
  free : s.player player_id ≡ none
  unowned : s.player_by_wallet wallet ≡ none
  old_enough : min_player_age ≤ vitals.age
  young_enough : vitals.age ≤ max_player_age
  canonical : IsCanon vitals canon

module _ (wallet : Address) (vitals canon : PlayerVitals) (ipfs_hashes : List Text) (player_id : ℕ)
    (s t : State) where
  check_seed-inv :
      check_seed wallet vitals ipfs_hashes player_id s ≡ ok (canon, t)
      → IsSeedable wallet vitals canon player_id s × (t ≡ s)
  unfolding check_seed require_not_paused require_initialized canonicalize_vitals
  check_seed-inv e = (
    record {
      initialized = ground arith;
      running = ground arith;
      free = ground arith;
      unowned = ground arith;
      old_enough = ground arith;
      young_enough = ground arith;
      canonical = record {
        age = ground arith;
        position = ground arith;
        region = ground arith;
        nationality = ground arith;
      };
    },
    ground arith,
  )

module _ (profile : StoredPlayerProfile) (level : Level) (id : ℕ) (s t : State) where
  write_seed-inv :
      write_seed profile level s ≡ ok (id, t)
      → has_id profile.player_id (or_default [] s.player_index) ≡ false
      → t ≡ entered profile level s.player_counter s.player_reg_last_sent s
  unfolding write_seed enter_player store_player push_player_index composite_index_add
      level_index_add set_region_bucket set_level_bucket region_bucket level_bucket
      increment_live_player_count
  write_seed-inv e new = ground (arith, new)

  write_seed-stored :
      write_seed profile level s ≡ ok (id, t) → t.player profile.player_id ≡ some profile
  unfolding write_seed enter_player store_player push_player_index composite_index_add
      level_index_add set_region_bucket set_level_bucket increment_live_player_count
  write_seed-stored e = ground (arith, ==_refl profile.player_id)

  write_seed-frame :
      write_seed profile level s ≡ ok (id, t)
      → (t.migration_nonce ≡ s.migration_nonce) × (t.live_scout_count ≡ s.live_scout_count)
  unfolding write_seed enter_player store_player push_player_index composite_index_add
      level_index_add set_region_bucket set_level_bucket increment_live_player_count
  write_seed-frame e = (ground arith, ground arith)

module _ (env : Env) (wallet : Address) (vitals : PlayerVitals) (ipfs_hashes : List Text)
    (level : Level) (player_id registered_at updated_at id : ℕ) (s t : State) where
  -- A seeding that returned went through every check, and for an id that is not in the player index
  -- it wrote all that a registration writes but the counter and the cooldown.
  pub admin_seed_player-Seeded :
      admin_seed_player env wallet vitals ipfs_hashes level player_id registered_at updated_at s
        ≡ ok (id, t)
      → Seeded env wallet vitals ipfs_hashes level player_id registered_at updated_at s t
  unfolding admin_seed_player
  admin_seed_player-Seeded e =
      let (admin, appointed, authorized, e₁) = admin_auth-inv env _ e in
      let (canon, s₁, passed, e₂) = >>=-inv (check_seed wallet vitals ipfs_hashes player_id) _ e₁ in
      let (checked, same) = check_seed-inv wallet vitals canon ipfs_hashes player_id s s₁ passed in
      let profile = seeded_profile wallet canon ipfs_hashes player_id registered_at updated_at in
      let wrote : write_seed profile level s ≡ ok (id, t) =
        subst (λ x. write_seed profile level x ≡ ok (id, t)) same e₂ in
      let kept = write_seed-frame profile level id s t wrote in
      record {
        admin = admin;
        canon = canon;
        appointed = appointed;
        authorized = authorized;
        initialized = checked.initialized;
        running = checked.running;
        free = checked.free;
        unowned = checked.unowned;
        canonical = checked.canonical;
        old_enough = checked.old_enough;
        young_enough = checked.young_enough;
        written = write_seed-inv profile level id s t wrote;
        stored = write_seed-stored profile level id s t wrote;
        nonces = kept.0;
        scouts = kept.1;
      }
