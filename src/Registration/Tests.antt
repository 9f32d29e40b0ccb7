-- ===== src/Registration/Tests.antt =====
-- A contract with one player, and runs of it: the data of the tests of contracts/registration.
mod Players
mod Texts
mod Pages
mod Lookups
use scout_off_contracts.Prelude.{
  ℕ, ◌≡◌, refl, true, none, some, List, [], ◌∷◌, take, replicate, ◌++◌, to_be_bytes, bytes_eq,
}
use scout_off_contracts.Shared.Admin.{require_admin}
use scout_off_contracts.Shared.Level.{Level, level_eq, rank, unverified, verified_identity}
use scout_off_contracts.Shared.Types.{Text, PlayerVitals, StoredPlayerProfile}
use scout_off_contracts.Contract.{ok}
use scout_off_contracts.Registration.Types.{Host, Env, State, MigrationAuthorization, player_role}
use scout_off_contracts.Registration.Players.{
  register_player, check_registration, canonicalize_vitals, enter_player, push_player_index,
  store_player, write_registration,
}
use scout_off_contracts.Shared.SafeMath.{safe_add_u64}
use scout_off_contracts.Registration.Storage.{
  require_not_paused, require_initialized, enforce_reg_cooldown, composite_index_add,
  get_reg_cooldown, increment_live_player_count, level_bucket, level_index_add, next_player_id,
  region_bucket, set_level_bucket, set_region_bucket,
}
use scout_off_contracts.Registration.Text.{
  canonicalize_position, accept_if, trim_upper, is_position, trim_end, trim_start, is_whitespace,
  to_uppercase, canonicalize_region, is_region, canonicalize_nationality, contains_text,
  is_alphanumeric, is_nationality, is_uppercase, valid_positions,
}
use scout_off_contracts.Registration.Ledger.{commit, empty}

-- The first 32 bytes, in place of a hash; every signature is valid.
abbrev pub test_host : Host
test_host = record {
  sha256 = λ bytes. take 32 (bytes ++ replicate 32 0);
  address_to_string = λ a. a ∷ [];
  account_key = λ a. some (replicate 32 a);
  ed25519_valid = λ key message signature. true;
}

abbrev pub test_env : Env
test_env = record {
  host = test_host;
  timestamp = 100000;
  authorized = λ a. true;
  peer = λ a. record { kind = none; version = none };
  get_level = λ progress player_id. none;
  read_as_profile = λ stored. none;
}

-- Set up and wired, before the first player.
abbrev pub set_up : State
set_up = record empty { admin = some 9; initialized = some true; progress_contract = some 77 }

-- `st`, ` ng-la` and `NG`.
abbrev pub given_vitals : PlayerVitals
given_vitals = record {
  age = 18;
  position = b's' ∷ b't' ∷ [];
  region = 32 ∷ b'n' ∷ b'g' ∷ b'-' ∷ b'l' ∷ b'a' ∷ [];
  nationality = b'N' ∷ b'G' ∷ [];
}

abbrev pub canon_vitals : PlayerVitals
canon_vitals = record {
  age = 18;
  position = b'S' ∷ b'T' ∷ [];
  region = b'N' ∷ b'G' ∷ b'-' ∷ b'L' ∷ b'A' ∷ [];
  nationality = b'N' ∷ b'G' ∷ [];
}

abbrev pub one_hash : List Text
one_hash = (b'Q' ∷ []) ∷ []

abbrev pub one_player : State
one_player = commit set_up (register_player test_env 3 given_vitals one_hash set_up)

pub one_player-registered :
    register_player test_env 3 given_vitals one_hash set_up ≡ ok (1, one_player)
unfolding register_player check_registration require_not_paused require_initialized
    enforce_reg_cooldown canonicalize_vitals canonicalize_position accept_if trim_upper is_position
    trim_end trim_start is_whitespace bytes_eq to_uppercase canonicalize_region is_region
    enter_player push_player_index store_player write_registration composite_index_add
    get_reg_cooldown increment_live_player_count level_bucket level_index_add next_player_id
    region_bucket set_level_bucket set_region_bucket canonicalize_nationality contains_text
    is_alphanumeric is_nationality is_uppercase valid_positions level_eq rank safe_add_u64
one_player-registered = refl
