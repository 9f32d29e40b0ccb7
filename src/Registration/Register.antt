-- ===== src/Registration/Register.antt =====
-- `register_player` of contracts/registration/src/lib.rs: its checks and its writes.
use scout_off_contracts.Prelude.{
  subst, sym, ◌∙◌, ◌≢◌, ℕ, ◌+◌, ◌<◌, ◌≤◌, ◌≡◌, true, false, Option, none, some, List, [],
  or_default, length, arith, update, ◌∷◌,
}
use scout_off_contracts.Prelude.Words.{u64_max}
use scout_off_contracts.Shared.Level.{Level, unverified}
use scout_off_contracts.Shared.Types.{Address, Text, PlayerVitals, StoredPlayerProfile}
use scout_off_contracts.Shared.SafeMath.{safe_add_u64}
use scout_off_contracts.Contract.{ok, >>=-inv}
use scout_off_contracts.Registration.Types.{
  Env, State, max_players, min_player_age, max_player_age, max_ipfs_hashes, player_registered,
}
use scout_off_contracts.Registration.Text.{
  canonicalize_region, canonicalize_position, canonicalize_nationality,
}
use scout_off_contracts.Registration.Storage.{
  require_initialized, require_not_paused, enforce_reg_cooldown, get_reg_cooldown, next_player_id,
  increment_live_player_count, composite_index_add, level_index_add, set_region_bucket,
  set_level_bucket, region_bucket, level_bucket,
}
use scout_off_contracts.Registration.Players.{
  canonicalize_vitals, check_registration, enter_player, register_player, store_player,
  write_registration, new_profile, push_player_index,
}

-- The cooldown is disabled or has passed since the wallet's last registration.
abbrev pub HasCooledDown : Env → State → Option ℕ → Type 0
HasCooledDown env s none = Unit
HasCooledDown env s (some last_sent) =
    get_reg_cooldown s ≢ 0 → last_sent + get_reg_cooldown s ≤ env.timestamp

-- The canonical vitals of the given ones.
pub record IsCanon (vitals canon : PlayerVitals) : Type 0 where
  pub age : canon.age ≡ vitals.age
  pub position : canonicalize_position vitals.position ≡ ok canon.position
  pub region : canonicalize_region vitals.region ≡ ok canon.region
  pub nationality : canonicalize_nationality vitals.nationality ≡ ok canon.nationality

-- What every registration is checked for.
pub record IsChecked (env : Env) (wallet : Address) (vitals canon : PlayerVitals)
    (ipfs_hashes : List Text) (s : State) : Type 0 where
  pub running : or_default false s.paused ≡ false
  pub initialized : or_default false s.initialized ≡ true
  pub authorized : env.authorized wallet ≡ true
  pub cooled_down : HasCooledDown env s (s.player_reg_last_sent wallet)
  pub unowned : s.player_by_wallet wallet ≡ none
  pub room : length (or_default [] s.player_index) < max_players
  pub old_enough : min_player_age ≤ vitals.age
  pub young_enough : vitals.age ≤ max_player_age
  pub some_hashes : 1 ≤ length ipfs_hashes
  pub few_hashes : length ipfs_hashes ≤ max_ipfs_hashes
  pub canonical : IsCanon vitals canon

module _ (vitals canon : PlayerVitals) (s t : State) where
  pub canonicalize_vitals-inv :
      canonicalize_vitals vitals s ≡ ok (canon, t) → IsCanon vitals canon × (t ≡ s)
  unfolding canonicalize_vitals
  canonicalize_vitals-inv e = (
    record {
      age = ground arith;
      position = ground arith;
      region = ground arith;
      nationality = ground arith;
    },
    ground arith,
  )

module _ (env : Env) (wallet : Address) (vitals canon : PlayerVitals) (ipfs_hashes : List Text)
    (s t : State) where
  pub check_registration-inv :
      check_registration env wallet vitals ipfs_hashes s ≡ ok (canon, t)
      → IsChecked env wallet vitals canon ipfs_hashes s × (t ≡ s)
  unfolding check_registration require_not_paused require_initialized enforce_reg_cooldown
      canonicalize_vitals get_reg_cooldown
  check_registration-inv e = (
    record {
      running = ground arith;
      initialized = ground arith;
      authorized = ground arith;
      cooled_down = ground arith;
      unowned = ground arith;
      room = ground arith;
      old_enough = ground arith;
      young_enough = ground arith;
      some_hashes = ground arith;
      few_hashes = ground arith;
      canonical = record {
        age = ground arith;
        position = ground arith;
        region = ground arith;
        nationality = ground arith;
      };
    },
    ground arith,
  )

module _ (s t : State) where
  pub next_player_id-inv :
      (id : ℕ)
      → next_player_id s ≡ ok (id, t)
      → (id ≡ or_default 0 s.player_counter + 1)
        × (id ≤ u64_max)
        × (t ≡ record s { player_counter = some id })
  unfolding next_player_id safe_add_u64
  next_player_id-inv id e = (ground arith, ground arith, ground arith)

-- The storage after a registration or a seeding of a new player.
abbrev pub entered : StoredPlayerProfile → Level → Option ℕ → (Address → Option ℕ) → State → State
entered profile level counter last_sent s = record (enter_player profile level true s) {
  player_counter = counter;
  live_player_count = some (or_default 0 s.live_player_count + 1);
  player_reg_last_sent = last_sent;
  effects = player_registered profile.player_id profile.wallet ∷ s.effects;
}

-- What a registration that returned has checked and written.
pub record Registered (env : Env) (wallet : Address) (vitals : PlayerVitals)
    (ipfs_hashes : List Text) (player_id : ℕ) (s t : State) : Type 0 where
  pub canon : PlayerVitals
  pub checked : IsChecked env wallet vitals canon ipfs_hashes s
  pub allotted : player_id ≡ or_default 0 s.player_counter + 1
  pub fits : player_id ≤ u64_max
  pub written :
      t
      ≡ entered
          (new_profile env wallet canon ipfs_hashes player_id)
          unverified
          (some player_id)
          (update s.player_reg_last_sent wallet env.timestamp)
          s

module _ (env : Env) (profile : StoredPlayerProfile) (player_id : ℕ) (s t : State) where
  write_registration-inv :
      write_registration env profile s ≡ ok (player_id, t)
      → (player_id ≡ profile.player_id)
        × (t
            ≡ entered profile unverified s.player_counter
                (update s.player_reg_last_sent profile.wallet env.timestamp)
                s)
  unfolding write_registration enter_player store_player push_player_index composite_index_add
      level_index_add set_region_bucket set_level_bucket region_bucket level_bucket
      increment_live_player_count
  write_registration-inv e = (ground arith, ground arith)

module _ (env : Env) (wallet : Address) (vitals : PlayerVitals) (ipfs_hashes : List Text)
    (player_id : ℕ) (s t : State) where
  -- What a registration that returned has checked and written.
  pub register_player-Registered :
      register_player env wallet vitals ipfs_hashes s ≡ ok (player_id, t)
      → Registered env wallet vitals ipfs_hashes player_id s t
  unfolding register_player enter_player store_player push_player_index composite_index_add
      level_index_add set_region_bucket set_level_bucket region_bucket level_bucket
  register_player-Registered e =
      let (canon, s₁, passed, e₁) =
        >>=-inv (check_registration env wallet vitals ipfs_hashes) _ e in
      let (checked, same) =
        check_registration-inv env wallet vitals canon ipfs_hashes s s₁ passed in
      let (id, s₂, took, e₂) = >>=-inv next_player_id _ e₁ in go canon s₁ id s₂ checked same took e₂
    where
      go :
          (canon : PlayerVitals) (s₁ : State) (id : ℕ) (s₂ : State)
          → IsChecked env wallet vitals canon ipfs_hashes s
          → s₁ ≡ s
          → next_player_id s₁ ≡ ok (id, s₂)
          → write_registration env (new_profile env wallet canon ipfs_hashes id) s₂
            ≡ ok (player_id, t)
          → Registered env wallet vitals ipfs_hashes player_id s t
      go canon s₁ id s₂ checked same took wrote =
          let (next, fits, left) =
            next_player_id-inv s s₂ id (subst (λ x. next_player_id x ≡ ok (id, s₂)) same took) in
          let (named, written) =
            write_registration-inv env (new_profile env wallet canon ipfs_hashes id) player_id s₂ t
              wrote in
          record {
            canon = canon;
            checked = checked;
            allotted = named ∙ next;
            fits = subst (λ n. n ≤ u64_max) (sym named) fits;
            written =
                subst
                  (λ n.
                    t
                    ≡ entered (new_profile env wallet canon ipfs_hashes n) unverified (some n)
                        (update s.player_reg_last_sent wallet env.timestamp) s)
                  (sym named)
                  (subst
                    (λ x.
                      t
                      ≡ entered (new_profile env wallet canon ipfs_hashes id) unverified
                          x.player_counter (update x.player_reg_last_sent wallet env.timestamp) x)
                    left written);
          }
