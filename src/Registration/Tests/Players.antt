-- ===== src/Registration/Tests/Players.antt =====
-- Tests of registration, levels, tickets and scouts of contracts/registration.
use scout_off_contracts.Shared.Admin.{require_admin}
use scout_off_contracts.Shared.SafeMath.{safe_add_u64}
use scout_off_contracts.Registration.Storage.{
  require_not_paused, require_initialized, enforce_reg_cooldown, composite_index_add,
  composite_index_remove, level_index_remove, has_id, remove_id, get_reg_cooldown,
  increment_live_player_count, level_bucket, level_index_add, next_player_id, region_bucket,
  set_level_bucket, set_region_bucket, load_stored_player,
}
use scout_off_contracts.Registration.Text.{
  canonicalize_position, accept_if, trim_upper, is_position, trim_end, trim_start, is_whitespace,
  to_uppercase, canonicalize_region, is_region, canonicalize_nationality, contains_text,
  is_alphanumeric, is_nationality, is_uppercase, valid_positions,
}
use scout_off_contracts.Prelude.{
  bytes_eq, to_be_bytes, ℕ, ◌+◌, ◌≤◌, ◌≡◌, ◌≢◌, refl, true, some, List, [], ◌∷◌, arith, replicate,
  or_default,
}
use scout_off_contracts.Shared.Level.{level_eq, rank, verified_identity}
use scout_off_contracts.Shared.Types.{StoredPlayerProfile}
use scout_off_contracts.Contract.{ok}
use scout_off_contracts.Registration.Types.{Env, State, player_role, max_scouts}
use scout_off_contracts.Registration.Players.{
  check_registration, canonicalize_vitals, enter_player, push_player_index, store_player,
  write_registration, deregister_player, erase_player, player_index_remove, count_down, store_level,
  enter_level, leave_buckets, leave_level, register_player, set_player_level,
}
use scout_off_contracts.Registration.Seeding.{check_seed, write_seed, admin_seed_player}
use scout_off_contracts.Registration.Migration.{
  redeem_migration_player, check_authorization, spend_authorization, role_eq, concat_texts,
  mark_migration_nonce, address_to_ed25519_key, migration_message, role_byte, profile_data_hash,
}
use scout_off_contracts.Registration.Admin.{initialize, init_state}
use scout_off_contracts.Registration.Entered.{IsEntered, register_player-IsEntered}
use scout_off_contracts.Registration.Levelled.{IsLevelled, IsMoved, set_player_level-IsMoved}
use scout_off_contracts.Registration.Directory.Owned.{IsDirectory-Same}
use scout_off_contracts.Registration.Collisions.{Collide, register_player-Collide}
use scout_off_contracts.Registration.Directory.{IsDirectory}
use scout_off_contracts.Registration.Ledger.{
  Request, initialize_request, register_player_request, deregister_player_request,
  register_scout_request, commit, run, serve, empty,
}
use scout_off_contracts.Registration.Ledger.Carried.{run_scouts_bounded}
use scout_off_contracts.Registration.Ledger.Directories.{
  IsAllocated, AllAllocated, run-IsDirectory, empty-IsDirectory,
}
use scout_off_contracts.Registration.Ledger.Tickets.{
  PlayerTicket, redeem, redeem_migration_player_once, IsCovered, redeem_migration_player-IsCovered,
}
use scout_off_contracts.Registration.Tests.{
  test_env, test_host, set_up, given_vitals, canon_vitals, one_hash, one_player,
  one_player-registered,
}

register_player-IsEntered_example : IsEntered test_env 3 given_vitals one_hash 1 set_up one_player
register_player-IsEntered_example =
    register_player-IsEntered test_env 3 given_vitals one_hash 1 set_up one_player
      one_player-registered

-- A new contract, two players, and the first of them erased.
abbrev pub calls : List (Env × Request)
calls =
    (test_env, initialize_request 9)
    ∷ (test_env, register_player_request 3 given_vitals one_hash)
    ∷ (test_env, register_player_request 4 given_vitals one_hash)
    ∷ (test_env, deregister_player_request 1)
    ∷ []

calls-AllAllocated : AllAllocated calls empty
unfolding AllAllocated IsAllocated
calls-AllAllocated = (tt, (tt, (tt, (tt, tt))))

run-IsDirectory_example : IsDirectory (run calls empty)
run-IsDirectory_example = run-IsDirectory calls empty calls-AllAllocated empty-IsDirectory

pub calls-IsDirectory : IsDirectory (run calls empty)
calls-IsDirectory = run-IsDirectory calls empty calls-AllAllocated empty-IsDirectory

run_scouts_bounded_example :
    or_default 0
      (run ((test_env, register_scout_request 5 canon_vitals.region) ∷ []) set_up).live_scout_count
    ≤ max_scouts
run_scouts_bounded_example =
    run_scouts_bounded ((test_env, register_scout_request 5 canon_vitals.region) ∷ []) set_up
      (omega arith)

-- After these calls, wired to the progress contract.
abbrev pub linked : State
linked = record (run calls empty) { progress_contract = some 77 }

pub linked-IsDirectory : IsDirectory linked
linked-IsDirectory =
    IsDirectory-Same
      (record {
        player = refl;
        player_by_wallet = refl;
        player_level = refl;
        player_index = refl;
        players_by_level_region = refl;
        players_by_level = refl;
        player_counter = refl;
        live_player_count = refl;
        initialized = refl;
      })
      calls-IsDirectory

abbrev raised : State
raised = commit linked (set_player_level test_env 2 verified_identity linked)

raised-set : set_player_level test_env 2 verified_identity linked ≡ ok (tt, raised)
unfolding run serve initialize init_state deregister_player erase_player player_index_remove
    count_down require_admin canonicalize_region accept_if trim_upper is_region trim_end trim_start
    is_whitespace is_uppercase to_uppercase is_alphanumeric canonicalize_position is_position
    bytes_eq contains_text valid_positions canonicalize_nationality is_nationality register_player
    check_registration require_not_paused require_initialized enforce_reg_cooldown
    canonicalize_vitals enter_player push_player_index store_player write_registration
    composite_index_add get_reg_cooldown increment_live_player_count level_bucket level_index_add
    next_player_id region_bucket set_level_bucket set_region_bucket level_eq rank safe_add_u64
    set_player_level load_stored_player leave_buckets leave_level composite_index_remove
    level_index_remove has_id remove_id enter_level store_level
raised-set = refl

set_player_level-IsMoved_example :
    (x : IsLevelled test_env 2 verified_identity linked raised) × IsMoved 2 verified_identity
      x.stored.vitals.region linked raised
set_player_level-IsMoved_example =
    set_player_level-IsMoved test_env 2 verified_identity linked raised linked-IsDirectory
      raised-set

-- Player 1 seeded for wallet 4.
abbrev seeded : State
seeded =
    commit set_up
      (admin_seed_player test_env 4 given_vitals one_hash verified_identity 1 50 60 set_up)

abbrev collided : State
collided = commit seeded (register_player test_env 3 given_vitals one_hash seeded)

collided-registered : register_player test_env 3 given_vitals one_hash seeded ≡ ok (1, collided)
unfolding canonicalize_region accept_if trim_upper is_region trim_end trim_start is_whitespace
    is_uppercase to_uppercase is_alphanumeric canonicalize_position is_position bytes_eq
    contains_text valid_positions canonicalize_nationality is_nationality register_player
    check_registration require_not_paused require_initialized enforce_reg_cooldown
    canonicalize_vitals enter_player push_player_index store_player write_registration
    composite_index_add get_reg_cooldown increment_live_player_count level_bucket level_index_add
    next_player_id region_bucket set_level_bucket set_region_bucket level_eq rank safe_add_u64
    admin_seed_player require_admin check_seed write_seed has_id
collided-registered = refl

seeded-held : seeded.player_by_wallet 4 ≡ some (or_default 0 seeded.player_counter + 1)
unfolding canonicalize_region accept_if trim_upper is_region trim_end trim_start is_whitespace
    is_uppercase to_uppercase is_alphanumeric canonicalize_position is_position bytes_eq
    contains_text valid_positions canonicalize_nationality is_nationality require_not_paused
    require_initialized canonicalize_vitals enter_player push_player_index store_player
    composite_index_add increment_live_player_count level_bucket level_index_add region_bucket
    set_level_bucket set_region_bucket level_eq rank admin_seed_player require_admin check_seed
    write_seed has_id
seeded-held = refl

register_player-Collide_example : Collide 3 4 1 collided
register_player-Collide_example =
    register_player-Collide test_env 3 given_vitals one_hash 1 seeded collided 4 collided-registered
      seeded-held

abbrev ticket : PlayerTicket
ticket = record {
  wallet = 4;
  vitals = given_vitals;
  ipfs_hashes = one_hash;
  level = verified_identity;
  player_id = 1;
  registered_at = 50;
  updated_at = 60;
  authorization = record {
    wallet = 4;
    role = player_role;
    profile_data_hash = profile_data_hash test_host 4 canon_vitals one_hash 1 50 60;
    new_contract_hint = 8;
    nonce = 7;
    expires_at = 0;
    signature = replicate 64 0;
  };
}

abbrev redeemed : State
redeemed = commit set_up (redeem test_env ticket set_up)

ticket-redeemed : redeem test_env ticket set_up ≡ ok (1, redeemed)
unfolding canonicalize_region accept_if trim_upper is_region trim_end trim_start is_whitespace
    is_uppercase to_uppercase is_alphanumeric canonicalize_position is_position bytes_eq
    contains_text valid_positions canonicalize_nationality is_nationality require_not_paused
    require_initialized canonicalize_vitals enter_player push_player_index store_player
    composite_index_add increment_live_player_count level_bucket level_index_add region_bucket
    set_level_bucket set_region_bucket level_eq rank admin_seed_player require_admin check_seed
    write_seed has_id redeem_migration_player check_authorization role_eq spend_authorization
    profile_data_hash concat_texts to_be_bytes mark_migration_nonce address_to_ed25519_key
    migration_message role_byte
ticket-redeemed = refl

redeem_migration_player_once_example :
    redeem test_env ticket (run ((test_env, deregister_player_request 1) ∷ []) redeemed)
    ≢ ok (1, redeemed)
redeem_migration_player_once_example =
    redeem_migration_player_once test_env test_env ((test_env, deregister_player_request 1) ∷ [])
      ticket ticket 1 1 set_up redeemed redeemed ticket-redeemed refl refl

redeem_migration_player-IsCovered_example :
    (stored : StoredPlayerProfile) × (admin : ℕ) × (redeemed.player 1 ≡ some stored)
    × IsCovered test_env ticket stored
    × (set_up.admin ≡ some admin)
    × (test_env.authorized admin ≡ true)
redeem_migration_player-IsCovered_example =
    redeem_migration_player-IsCovered test_env ticket 1 set_up redeemed ticket-redeemed
