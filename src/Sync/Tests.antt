-- ===== src/Sync/Tests.antt =====
-- Tests of the calls that join contracts/progress and contracts/registration.
use scout_off_contracts.Progress.Merkle.{frontier_append}
use scout_off_contracts.Progress.History.{
  record_progress_entry, append_leaf, append_page, store_entry,
}
use scout_off_contracts.Shared.SafeMath.{safe_add_u64, safe_add_u32}
use scout_off_contracts.Registration.Storage.{
  require_not_paused, require_initialized, enforce_reg_cooldown, composite_index_add,
  composite_index_remove, level_index_remove, has_id, remove_id, get_reg_cooldown,
  increment_live_player_count, level_bucket, level_index_add, next_player_id, region_bucket,
  set_level_bucket, set_region_bucket, load_stored_player,
}
use scout_off_contracts.Registration.Text.{
  canonicalize_position, accept_if, trim_upper, is_position, trim_end, trim_start, is_whitespace,
  to_uppercase, canonicalize_region, is_region, canonicalize_nationality, contains_text,
  is_alphanumeric, is_nationality, is_uppercase, valid_positions,
}
use scout_off_contracts.Prelude.{
  inr, bytes_eq, ℕ, List, [], ◌∷◌, ◌≡◌, refl, sym, some, or_default, arith,
}
use scout_off_contracts.Shared.Level.{
  level_eq, rank, next, unverified, verified_identity, elite_tier,
}
use scout_off_contracts.Shared.Types.{StoredPlayerProfile}
use scout_off_contracts.Contract.{ok}
use scout_off_contracts.Progress.Types as progress
use scout_off_contracts.Progress.Storage.{get_current_level}
use scout_off_contracts.Progress.Levels.{
  advance_level_authorized, advance_one_tier, check_milestone, sync_registration, set_level,
  advance_level,
}
use scout_off_contracts.Progress.Ledger.{commit}
use scout_off_contracts.Progress.Tests as progress_tests
use scout_off_contracts.Registration.Types as registration
use scout_off_contracts.Registration.Players.{
  register_player, check_registration, canonicalize_vitals, enter_player, push_player_index,
  store_player, write_registration, store_level, enter_level, leave_buckets, leave_level,
  set_player_level, new_profile,
}
use scout_off_contracts.Registration.Levelled.{IsLevelled}
use scout_off_contracts.Registration.Tests.{test_env, canon_vitals, one_hash, one_player}
use scout_off_contracts.Sync.{joined, begun, advance_both}
use scout_off_contracts.Sync.Commits.{advance_both-commits, advance_both-returns}
use scout_off_contracts.Sync.Agreement.{LevelsAgree}
use scout_off_contracts.Sync.Ledger.{
  LevelCall, advance_call, reset_call, run_both, run_both-LevelsAgree,
}

abbrev profile : StoredPlayerProfile
profile = new_profile test_env 3 canon_vitals one_hash 1

found : one_player.player 1 ≡ some profile
unfolding canonicalize_region accept_if trim_upper is_region trim_end trim_start is_whitespace
    is_uppercase to_uppercase is_alphanumeric canonicalize_position is_position bytes_eq
    contains_text valid_positions canonicalize_nationality is_nationality register_player
    check_registration require_not_paused require_initialized enforce_reg_cooldown
    canonicalize_vitals enter_player push_player_index store_player write_registration
    composite_index_add get_reg_cooldown increment_live_player_count level_bucket level_index_add
    next_player_id region_bucket set_level_bucket set_region_bucket level_eq rank safe_add_u64
found = refl

one_player_level : (id : ℕ) → or_default unverified (one_player.player_level id) ≡ unverified
unfolding canonicalize_region accept_if trim_upper is_region trim_end trim_start is_whitespace
    is_uppercase to_uppercase is_alphanumeric canonicalize_position is_position bytes_eq
    contains_text valid_positions canonicalize_nationality is_nationality register_player
    check_registration require_not_paused require_initialized enforce_reg_cooldown
    canonicalize_vitals enter_player push_player_index store_player write_registration
    composite_index_add get_reg_cooldown increment_live_player_count level_bucket level_index_add
    next_player_id region_bucket set_level_bucket set_region_bucket level_eq rank safe_add_u64
one_player_level id = ground arith

start-LevelsAgree : LevelsAgree (progress_tests.set_up, one_player)
start-LevelsAgree id there = sym (one_player_level id)

abbrev two_calls : List (progress.Env × registration.Env × LevelCall)
two_calls =
    (progress_tests.test_env, test_env, advance_call 7 1 1)
    ∷ (progress_tests.test_env, test_env, reset_call 1 elite_tier)
    ∷ []

run_both-LevelsAgree_example : LevelsAgree (run_both two_calls (progress_tests.set_up, one_player))
run_both-LevelsAgree_example =
    run_both-LevelsAgree two_calls (progress_tests.set_up, one_player) start-LevelsAgree

wired : one_player.progress_contract ≡ some 77
unfolding canonicalize_region accept_if trim_upper is_region trim_end trim_start is_whitespace
    is_uppercase to_uppercase is_alphanumeric canonicalize_position is_position bytes_eq
    contains_text valid_positions canonicalize_nationality is_nationality register_player
    check_registration require_not_paused require_initialized enforce_reg_cooldown
    canonicalize_vitals enter_player push_player_index store_player write_registration
    composite_index_add get_reg_cooldown increment_live_player_count level_bucket level_index_add
    next_player_id region_bucket set_level_bucket set_region_bucket level_eq rank safe_add_u64
wired = refl

advance_both-returns_example :
    (p' : progress.State) × (r' : registration.State) × (advance_both progress_tests.test_env
        test_env 7 1 1
        (progress_tests.set_up, one_player)
      ≡ (p', r'))
    × (p'.player_level 1 ≡ some verified_identity)
    × (r'.player_level 1 ≡ some verified_identity)
unfolding next
advance_both-returns_example =
    advance_both-returns progress_tests.test_env test_env 7 1 1 progress_tests.set_up one_player
      verified_identity [] 5 77 profile (record { running = refl; initialized = refl })
      (inr (λ same. ground (arith, same), 7, refl, refl)) refl refl
      progress_tests.set_up-PlayerHolds.stored (omega arith) wired refl found

abbrev advanced : progress.State
advanced = commit progress_tests.set_up (
    advance_level (joined progress_tests.test_env test_env one_player) 7 1 1
      (begun progress_tests.set_up))

advance-returned :
    advance_level
      (joined progress_tests.test_env test_env one_player)
      7
      1
      1
      (begun progress_tests.set_up)
    ≡ ok (verified_identity, advanced)
unfolding advance_level advance_level_authorized check_milestone advance_one_tier next
    get_current_level record_progress_entry safe_add_u32 append_leaf append_page store_entry
    frontier_append sync_registration set_level canonicalize_region accept_if trim_upper is_region
    trim_end trim_start is_whitespace is_uppercase to_uppercase is_alphanumeric
    canonicalize_position is_position bytes_eq contains_text valid_positions
    canonicalize_nationality is_nationality register_player check_registration require_not_paused
    require_initialized enforce_reg_cooldown canonicalize_vitals enter_player push_player_index
    store_player write_registration composite_index_add get_reg_cooldown increment_live_player_count
    level_bucket level_index_add next_player_id region_bucket set_level_bucket set_region_bucket
    level_eq rank safe_add_u64 set_player_level load_stored_player leave_buckets leave_level
    composite_index_remove level_index_remove has_id remove_id enter_level store_level
advance-returned = refl

advance_both-commits_example :
    (r' : registration.State) × (advance_both progress_tests.test_env test_env 7 1 1
        (progress_tests.set_up, one_player)
      ≡ (advanced, r'))
    × (advanced.player_level 1 ≡ some verified_identity)
    × IsLevelled test_env 1 verified_identity one_player r'
advance_both-commits_example =
    advance_both-commits progress_tests.test_env test_env 7 1 1 progress_tests.set_up advanced
      one_player verified_identity advance-returned
