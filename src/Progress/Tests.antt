-- ===== src/Progress/Tests.antt =====
-- A contract with one player, and runs of it: the data of the tests of contracts/progress.
mod Levels
mod Merkle
mod Queries
mod Config
use scout_off_contracts.Prelude.{
  ℕ, ◌≡◌, refl, true, false, none, some, List, [], ◌∷◌, take, replicate, ◌++◌,
}
use scout_off_contracts.Shared.Level.{
  Level, next, unverified, verified_identity, performance_milestones,
}
use scout_off_contracts.Shared.Admin.{require_admin}
use scout_off_contracts.Shared.SafeMath.{safe_add_u32}
use scout_off_contracts.Contract.{ok}
use scout_off_contracts.Progress.Types.{Host, Env, State, ProgressEntry, synced}
use scout_off_contracts.Progress.Storage.{
  get_current_level, require_initialized, require_not_paused,
}
use scout_off_contracts.Progress.Merkle.{frontier_append}
use scout_off_contracts.Progress.History.{
  record_progress_entry, append_leaf, append_page, store_entry,
}
use scout_off_contracts.Progress.Levels.{
  advance_level, advance_level_authorized, advance_one_tier, check_milestone, sync_registration,
}
use scout_off_contracts.Progress.Levels.Chain.{PlayerHolds}
use scout_off_contracts.Progress.Levels.Frame.{PlayerHolds-SameFor}
use scout_off_contracts.Progress.Levels.Advance.{Advanced-PlayerHolds}
use scout_off_contracts.Progress.Levels.Entry.{advance_level-inv}
use scout_off_contracts.Progress.Ledger.{commit, empty}
use scout_off_contracts.Progress.Ledger.History.{AllHold, empty-AllHold}

-- The first 32 bytes, in place of a hash.
abbrev pub test_host : Host
test_host = record {
  sha256 = λ bytes. take 32 (bytes ++ replicate 32 0);
  address_xdr = λ a. a ∷ [];
}

abbrev pub test_env : Env
test_env = record {
  host = test_host;
  timestamp = 100;
  sequence = 50;
  authorized = λ a. true;
  peer = λ a. record { kind = none; version = none };
  set_player_level_reply = λ reg player_id level. synced;
  milestone_count = λ ver player_id. some 5;
}

-- Set up and wired, before the first entry.
abbrev pub set_up : State
set_up = record empty {
  admin = some 9;
  initialized = some true;
  paused = some false;
  schema_version = some 1;
  registration_contract = some 5;
  verification_contract = some 7;
  scout_access_contract = some 8;
}

pub set_up-AllHold : AllHold test_host (λ player_id. []) set_up
set_up-AllHold player_id =
    PlayerHolds-SameFor
      (record {
        level = refl;
        counter = refl;
        entries = refl;
        legacy = refl;
        pages = refl;
        root = refl;
        frontier = refl;
      })
      (empty-AllHold test_host player_id)

pub set_up-PlayerHolds : PlayerHolds test_host set_up 1 []
set_up-PlayerHolds = set_up-AllHold 1

-- The player's first entry, by the verification contract.
abbrev pub first_entry : ProgressEntry
first_entry = record {
  player_id = 1;
  old_level = unverified;
  new_level = verified_identity;
  updated_by = 7;
  updated_at = 100;
  milestone_ref = 1;
  ledger_sequence = 50;
}

abbrev pub one_entry : State
one_entry = commit set_up (advance_level test_env 7 1 1 set_up)

pub one_entry-advanced : advance_level test_env 7 1 1 set_up ≡ ok (verified_identity, one_entry)
unfolding advance_level advance_level_authorized check_milestone advance_one_tier next
    get_current_level record_progress_entry safe_add_u32 append_leaf append_page store_entry
    frontier_append sync_registration
one_entry-advanced = refl

pub one_entry-PlayerHolds : PlayerHolds test_host one_entry 1 (first_entry ∷ [])
unfolding get_current_level
one_entry-PlayerHolds =
    (Advanced-PlayerHolds test_env 7 false (some 7) 1 1 [] set_up-PlayerHolds
      (advance_level-inv test_env 7 1 1 one_entry-advanced).2).0
