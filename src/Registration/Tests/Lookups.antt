-- ===== src/Registration/Tests/Lookups.antt =====
-- Tests of the lookup of players of contracts/registration by their wallets.
use scout_off_contracts.Shared.SafeMath.{safe_add_u64}
use scout_off_contracts.Shared.Admin.{require_admin}
use scout_off_contracts.Registration.Admin.{initialize, init_state}
use scout_off_contracts.Registration.Queries.{
  load_player, resolve_level, stored_to_profile, get_player, get_player_by_wallet,
}
use scout_off_contracts.Registration.Players.{
  register_player, check_registration, canonicalize_vitals, enter_player, push_player_index,
  store_player, write_registration, deregister_player, erase_player, player_index_remove,
  leave_level, count_down, new_profile,
}
use scout_off_contracts.Registration.Storage.{
  require_not_paused, require_initialized, enforce_reg_cooldown, composite_index_add,
  get_reg_cooldown, increment_live_player_count, level_bucket, level_index_add, next_player_id,
  region_bucket, set_level_bucket, set_region_bucket, load_stored_player, composite_index_remove,
  level_index_remove, has_id, remove_id,
}
use scout_off_contracts.Prelude.{bytes_eq, ◌≡◌, refl}
use scout_off_contracts.Shared.Level.{level_eq, rank, unverified}
use scout_off_contracts.Shared.Types.{PlayerProfile, PlayerVitals}
use scout_off_contracts.Contract.{ok}
use scout_off_contracts.Registration.Text.{
  canonicalize_position, accept_if, trim_upper, is_position, trim_end, trim_start, is_whitespace,
  to_uppercase, canonicalize_region, is_region, canonicalize_nationality, contains_text,
  is_alphanumeric, is_nationality, is_uppercase, valid_positions,
}
use scout_off_contracts.Registration.Ledger.{run, empty, serve}
use scout_off_contracts.Registration.Register.{IsCanon}
use scout_off_contracts.Registration.Lookup.{
  get_player-get_player_by_wallet, register_player-get_player_by_wallet,
}
use scout_off_contracts.Registration.Tests.{
  test_env, set_up, given_vitals, canon_vitals, one_hash, one_player, one_player-registered,
}
use scout_off_contracts.Registration.Tests.Players.{calls, calls-IsDirectory}

abbrev second : PlayerProfile
second = record {
  player_id = 2;
  wallet = 4;
  vitals = canon_vitals;
  ipfs_hashes = one_hash;
  level = unverified;
  registered_at = 100000;
  updated_at = 100000;
}

second-found : get_player test_env (run calls empty) 2 ≡ ok second
unfolding get_player load_player resolve_level stored_to_profile run serve initialize init_state
    deregister_player erase_player player_index_remove leave_level count_down load_stored_player
    require_admin composite_index_remove level_index_remove has_id remove_id canonicalize_region
    accept_if trim_upper is_region trim_end trim_start is_whitespace is_uppercase to_uppercase
    is_alphanumeric canonicalize_position is_position bytes_eq contains_text valid_positions
    canonicalize_nationality is_nationality register_player check_registration require_not_paused
    require_initialized enforce_reg_cooldown canonicalize_vitals enter_player push_player_index
    store_player write_registration composite_index_add get_reg_cooldown increment_live_player_count
    level_bucket level_index_add next_player_id region_bucket set_level_bucket set_region_bucket
    level_eq rank safe_add_u64
second-found = refl

get_player-get_player_by_wallet_example :
    (second.player_id ≡ 2)
    × (get_player_by_wallet test_env (run calls empty) second.wallet ≡ ok second)
get_player-get_player_by_wallet_example =
    get_player-get_player_by_wallet test_env (run calls empty) 2 second calls-IsDirectory
      second-found

register_player-get_player_by_wallet_example :
    (canon : PlayerVitals) × IsCanon given_vitals canon
    × (get_player_by_wallet test_env one_player 3
        ≡ ok (stored_to_profile (new_profile test_env 3 canon one_hash 1) unverified))
register_player-get_player_by_wallet_example =
    register_player-get_player_by_wallet test_env test_env 3 given_vitals one_hash 1 set_up
      one_player one_player-registered
