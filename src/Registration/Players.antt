-- ===== src/Registration/Players.antt =====
-- The players of contracts/registration/src/lib.rs: registration, profile updates, levels,
-- deactivation and erasure.
use scout_off_contracts.Prelude.{
  ℕ, ◌-◌, Bool, true, not, ◌||◌, Option, none, some, List, [], ◌∷◌, ◌++◌, ltb, leb, ◌==◌,
  if◌then◌else◌, or_default, is_some, length, update, remove,
}
use scout_off_contracts.Shared.Level.{
  Level, unverified, verified_identity, performance_milestones, elite_tier,
}
use scout_off_contracts.Shared.Types.{Address, Text, PlayerVitals, StoredPlayerProfile}
use scout_off_contracts.Contract.{
  get_state, modify, lift, fail_if, or_fail, pure, skip, ◌>>=◌, ◌>>◌,
}
use scout_off_contracts.Registration.Types.{
  Env, State, Call, already_registered, player_cap_reached, invalid_input, unauthorized,
  player_registered, profile_updated, player_deregistered, player_deactivated_event,
  player_reactivated_event, player_level_synced, max_players, min_player_age, max_player_age,
  max_string_len, max_region_len, max_ipfs_hashes,
}
use scout_off_contracts.Registration.Text.{
  canonicalize_position, canonicalize_region, canonicalize_nationality,
}
use scout_off_contracts.Registration.Storage.{
  admin_auth, auth, emit, require_initialized, require_not_paused, enforce_reg_cooldown,
  load_stored_player, next_player_id, increment_live_player_count, has_id, remove_id,
  composite_index_add, composite_index_remove, level_index_add, level_index_remove,
}

abbrev pub too_young : PlayerVitals → Bool
too_young vitals = vitals.age == 0 || ltb vitals.age min_player_age

abbrev pub too_long : PlayerVitals → Bool
too_long vitals =
    ltb max_string_len (length vitals.position)
    || ltb max_region_len (length vitals.region)
    || ltb max_string_len (length vitals.nationality)

abbrev pub bad_hashes : List Text → Bool
bad_hashes ipfs_hashes = length ipfs_hashes == 0 || ltb max_ipfs_hashes (length ipfs_hashes)

-- The vitals with their three texts in canonical form.
unfoldable pub canonicalize_vitals : PlayerVitals → Call PlayerVitals
canonicalize_vitals vitals = do
  canon_position ← lift (canonicalize_position vitals.position)
  canon_region ← lift (canonicalize_region vitals.region)
  canon_nationality ← lift (canonicalize_nationality vitals.nationality)
  pure (record vitals {
    position = canon_position;
    region = canon_region;
    nationality = canon_nationality;
  })

-- The checks of `register_player`, which give the canonical vitals.
unfoldable pub check_registration : Env → Address → PlayerVitals → List Text → Call PlayerVitals
check_registration env wallet vitals ipfs_hashes = do
  require_not_paused
  require_initialized
  auth env wallet
  s ← get_state
  enforce_reg_cooldown env (s.player_reg_last_sent wallet)
  fail_if (is_some (s.player_by_wallet wallet)) already_registered
  fail_if (leb max_players (length (or_default [] s.player_index))) player_cap_reached
  fail_if (too_young vitals) invalid_input
  fail_if (too_long vitals) invalid_input
  canon ← canonicalize_vitals vitals
  fail_if (ltb max_player_age vitals.age) invalid_input
  fail_if (bad_hashes ipfs_hashes) invalid_input
  pure canon

-- The writes of a profile, of its wallet's key and of its level.
unfoldable pub store_player : StoredPlayerProfile → Level → State → State
store_player profile level s = record s {
  player = update s.player profile.player_id profile;
  player_by_wallet = update s.player_by_wallet profile.wallet profile.player_id;
  player_level = update s.player_level profile.player_id level;
}

unfoldable pub push_player_index : ℕ → State → State
push_player_index player_id s = record s {
  player_index = some (or_default [] s.player_index ++ player_id ∷ []);
}

-- The writes of a registration or seeding: the profile, the player index and the two level indexes.
unfoldable pub enter_player : StoredPlayerProfile → Level → Bool → State → State
enter_player profile level is_new_player s =
    let stored = store_player profile level s in
    let indexed = if is_new_player then push_player_index profile.player_id stored else stored in
    level_index_add level profile.player_id
      (composite_index_add level profile.vitals.region profile.player_id indexed)

-- The writes of `register_player`, from the allocation of the id on.
unfoldable pub write_registration : Env → StoredPlayerProfile → Call ℕ
write_registration env profile = do
  modify (enter_player profile unverified true)
  increment_live_player_count
  modify (λ t. record t {
    player_reg_last_sent = update t.player_reg_last_sent profile.wallet env.timestamp;
  })
  emit (player_registered profile.player_id profile.wallet)
  pure profile.player_id

-- The profile that a registration stores.
abbrev pub new_profile : Env → Address → PlayerVitals → List Text → ℕ → StoredPlayerProfile
new_profile env wallet canon ipfs_hashes player_id = record {
  player_id = player_id;
  wallet = wallet;
  vitals = canon;
  ipfs_hashes = ipfs_hashes;
  registered_at = env.timestamp;
  updated_at = env.timestamp;
}

unfoldable pub register_player : Env → Address → PlayerVitals → List Text → Call ℕ
register_player env wallet vitals ipfs_hashes = do
  canon ← check_registration env wallet vitals ipfs_hashes
  player_id ← next_player_id
  write_registration env (new_profile env wallet canon ipfs_hashes player_id)

unfoldable pub update_profile : Env → ℕ → List Text → Call (Unit {0})
update_profile env player_id ipfs_hashes = do
  require_not_paused
  require_initialized
  profile ← load_stored_player player_id
  auth env profile.wallet
  fail_if (bad_hashes ipfs_hashes) invalid_input
  modify (λ t. record t {
    player =
        update t.player player_id
          (record profile { ipfs_hashes = ipfs_hashes; updated_at = env.timestamp });
  })
  emit (profile_updated player_id profile.wallet)

-- The player leaves the buckets of the stored level, or those of every level if none is stored.
unfoldable pub leave_level : Level → Text → ℕ → State → State
leave_level level region player_id s =
    level_index_remove level player_id (composite_index_remove level region player_id s)

unfoldable pub leave_buckets : Option Level → Text → ℕ → State → State
leave_buckets none region player_id s = leave_level elite_tier region player_id (
    leave_level performance_milestones region player_id
      (leave_level verified_identity region player_id (leave_level unverified region player_id s)))
leave_buckets (some prev) region player_id s = leave_level prev region player_id s

unfoldable pub enter_level : Level → Text → ℕ → State → State
enter_level level region player_id s =
    level_index_add level player_id (composite_index_add level region player_id s)

unfoldable pub store_level : ℕ → StoredPlayerProfile → Level → State → State
store_level player_id stored level s = record s {
  player = update s.player player_id stored;
  player_level = update s.player_level player_id level;
}

unfoldable pub set_player_level : Env → ℕ → Level → Call (Unit {0})
set_player_level env player_id level = do
  s ← get_state
  progress_contract ← or_fail s.progress_contract unauthorized
  auth env progress_contract
  stored ← load_stored_player player_id
  let region = stored.vitals.region
  modify (leave_buckets (s.player_level player_id) region player_id)
  modify (enter_level level region player_id)
  modify (store_level player_id (record stored { updated_at = env.timestamp }) level)
  emit (player_level_synced player_id progress_contract level)

unfoldable pub player_index_remove : ℕ → State → State
player_index_remove player_id s =
    let ids = or_default [] s.player_index in
    record s {
      player_index =
          if has_id player_id ids then some (remove_id player_id ids) else s.player_index;
    }

-- The keys that an erasure removes.
unfoldable pub erase_player : ℕ → Address → State → State
erase_player player_id wallet s = record s {
  player = remove s.player player_id;
  player_by_wallet = remove s.player_by_wallet wallet;
  player_level = remove s.player_level player_id;
  player_deactivated = remove s.player_deactivated player_id;
}

-- `live.saturating_sub(1)`.
unfoldable pub count_down : State → State
count_down s = record s { live_player_count = some (or_default 0 s.live_player_count - 1) }

unfoldable pub deregister_player : Env → ℕ → Call (Unit {0})
deregister_player env player_id = do
  admin ← admin_auth env
  profile ← load_stored_player player_id
  s ← get_state
  let level = or_default unverified (s.player_level player_id)
  let region = profile.vitals.region
  modify (erase_player player_id profile.wallet)
  modify (player_index_remove player_id)
  modify (leave_level level region player_id)
  modify count_down
  emit (player_deregistered player_id level region admin)

unfoldable pub deactivate_player : Env → ℕ → Call (Unit {0})
deactivate_player env player_id = do
  admin ← admin_auth env
  load_stored_player player_id
  s ← get_state
  if is_some (s.player_deactivated player_id) then skip else (do
    modify (λ t. record t { player_deactivated = update t.player_deactivated player_id true })
    emit (player_deactivated_event player_id admin))

unfoldable pub reactivate_player : Env → ℕ → Call (Unit {0})
reactivate_player env player_id = do
  admin ← admin_auth env
  load_stored_player player_id
  s ← get_state
  if not (is_some (s.player_deactivated player_id)) then skip else (do
    modify (λ t. record t { player_deactivated = remove t.player_deactivated player_id })
    emit (player_reactivated_event player_id admin))
