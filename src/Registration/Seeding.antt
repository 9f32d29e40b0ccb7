-- ===== src/Registration/Seeding.antt =====
-- Seeding of players by the administrator, from contracts/registration/src/lib.rs.
use scout_off_contracts.Prelude.{ℕ, not, List, [], ltb, if◌then◌else◌, or_default, is_some}
use scout_off_contracts.Shared.Level.{Level}
use scout_off_contracts.Shared.Types.{Address, Text, PlayerVitals, StoredPlayerProfile}
use scout_off_contracts.Contract.{get_state, modify, fail_if, pure, skip, ◌>>=◌, ◌>>◌}
use scout_off_contracts.Registration.Types.{
  Env, Call, already_registered, invalid_input, player_registered, max_player_age,
}
use scout_off_contracts.Registration.Storage.{
  admin_auth, emit, require_initialized, require_not_paused, increment_live_player_count, has_id,
}
use scout_off_contracts.Registration.Players.{
  too_young, bad_hashes, canonicalize_vitals, enter_player,
}

-- The checks of `admin_seed_player` after the authorisation.
unfoldable pub check_seed : Address → PlayerVitals → List Text → ℕ → Call PlayerVitals
check_seed wallet vitals ipfs_hashes player_id = do
  require_not_paused
  require_initialized
  s ← get_state
  fail_if (is_some (s.player player_id)) already_registered
  fail_if (is_some (s.player_by_wallet wallet)) already_registered
  fail_if (too_young vitals) invalid_input
  canon ← canonicalize_vitals vitals
  fail_if (ltb max_player_age vitals.age) invalid_input
  fail_if (bad_hashes ipfs_hashes) invalid_input
  pure canon

-- The writes of `admin_seed_player`; the player index and the live counter only for a new id.
unfoldable pub write_seed : StoredPlayerProfile → Level → Call ℕ
write_seed profile level = do
  s ← get_state
  let is_new_player = not (has_id profile.player_id (or_default [] s.player_index))
  modify (enter_player profile level is_new_player)
  if is_new_player then increment_live_player_count else skip
  emit (player_registered profile.player_id profile.wallet)
  pure profile.player_id

abbrev pub seeded_profile : Address → PlayerVitals → List Text → ℕ → ℕ → ℕ → StoredPlayerProfile
seeded_profile wallet canon ipfs_hashes player_id registered_at updated_at = record {
  player_id = player_id;
  wallet = wallet;
  vitals = canon;
  ipfs_hashes = ipfs_hashes;
  registered_at = registered_at;
  updated_at = updated_at;
}

unfoldable pub admin_seed_player :
    Env → Address → PlayerVitals → List Text → Level → ℕ → ℕ → ℕ → Call ℕ
admin_seed_player env wallet vitals ipfs_hashes level player_id registered_at updated_at = do
  admin_auth env
  canon ← check_seed wallet vitals ipfs_hashes player_id
  write_seed (seeded_profile wallet canon ipfs_hashes player_id registered_at updated_at) level
