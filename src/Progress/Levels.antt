-- ===== src/Progress/Levels.antt =====
-- The level changes of contracts/progress/src/lib.rs: `advance_level`, `advance_level_for_scout` and
-- `reset_player_level`.
pub mod Chain
pub mod Frame
pub mod Change
pub mod Advance
pub mod Entry
pub mod Reset
pub mod Config
pub mod Returns
pub mod Kept
pub mod Outcome
use scout_off_contracts.Prelude.{
  ℕ, Bool, true, false, ◌||◌, Option, none, some, ltb, ◌==◌, if◌then◌else◌,
}
use scout_off_contracts.Shared.Level.{Level, next, level_eq}
use scout_off_contracts.Contract.{
  get_state, modify, fail, fail_if, or_fail, or_trap, pure, skip, ◌>>=◌, ◌>>◌,
}
use scout_off_contracts.Progress.Types.{
  Address, Env, State, Call, SyncReply, synced, player_unknown, other_failure, progress_updated,
  player_level_reset, called_set_player_level, not_initialized, registration_not_configured,
  no_level_change, already_at_max_level, player_not_registered, registration_call_failed,
  invalid_progress_transition, update,
}
use scout_off_contracts.Progress.Storage.{
  admin_auth, auth, emit, require_initialized, require_not_paused, get_current_level,
}
use scout_off_contracts.Progress.History.{record_progress_entry}

unfoldable pub set_level : ℕ → Level → State → State
set_level player_id level s = record s { player_level = update s.player_level player_id level }

-- The synchronising call of the registration contract, and what its failures become.
unfoldable pub sync_registration : Env → Address → ℕ → Level → Call (Unit {0})
sync_registration env reg_contract player_id level =
    elim (env.set_player_level_reply reg_contract player_id level) [
      | synced ↦ emit (called_set_player_level reg_contract player_id level)
      | player_unknown ↦ fail player_not_registered
      | other_failure ↦ fail registration_call_failed
    ]

-- A secondary caller must name a milestone that the verification contract knows.
unfoldable pub check_milestone : Env → Bool → Option Address → ℕ → ℕ → Call (Unit {0})
check_milestone env false verification_contract player_id milestone_ref = skip
check_milestone env true verification_contract player_id milestone_ref = do
  ver_addr ← or_fail verification_contract not_initialized
  count ← or_trap (env.milestone_count ver_addr player_id)
  fail_if (milestone_ref == 0 || ltb count milestone_ref) invalid_progress_transition

-- The body of `advance_level_authorized` after the milestone check.
unfoldable pub advance_one_tier : Env → Address → ℕ → ℕ → Call Level
advance_one_tier env caller player_id milestone_ref = do
  s ← get_state
  reg_contract ← or_fail s.registration_contract registration_not_configured
  let current = get_current_level s player_id
  new_level ← or_fail (next current) already_at_max_level
  record_progress_entry env player_id current new_level caller milestone_ref
  modify (set_level player_id new_level)
  sync_registration env reg_contract player_id new_level
  emit (progress_updated player_id current new_level caller milestone_ref)
  pure new_level

unfoldable pub advance_level_authorized : Env → Address → Bool → Option Address → ℕ → ℕ → Call Level
advance_level_authorized env caller caller_is_secondary verification_contract player_id
      milestone_ref =
    do
      check_milestone env caller_is_secondary verification_contract player_id milestone_ref
      advance_one_tier env caller player_id milestone_ref

-- `secondary.map(|a| a == caller).unwrap_or(false)`
abbrev pub is_address : Option Address → Address → Bool
is_address none caller = false
is_address (some a) caller = a == caller

-- Authorisation by the verification contract, if there is one.
abbrev pub verification_auth : Env → Option Address → Call Address
verification_auth env none = fail not_initialized
verification_auth env (some vc) = auth env vc

unfoldable pub advance_level : Env → Address → ℕ → ℕ → Call Level
unfolding require_not_paused require_initialized
advance_level env caller player_id milestone_ref = do
  require_not_paused
  require_initialized
  s ← get_state
  let caller_is_secondary = is_address s.scout_access_contract caller
  if caller_is_secondary then auth env caller else verification_auth env s.verification_contract
  advance_level_authorized env caller caller_is_secondary s.verification_contract player_id
      milestone_ref

unfoldable pub advance_level_for_scout : Env → Address → ℕ → ℕ → Call Level
unfolding require_not_paused require_initialized
advance_level_for_scout env scout player_id milestone_ref = do
  require_not_paused
  require_initialized
  s ← get_state
  secondary ← or_fail s.scout_access_contract not_initialized
  auth env secondary
  advance_level_authorized env scout true s.verification_contract player_id milestone_ref

unfoldable pub reset_player_level : Env → ℕ → Level → Call (Unit {0})
unfolding require_not_paused require_initialized
reset_player_level env player_id target_level = do
  require_not_paused
  require_initialized
  admin ← admin_auth env
  s ← get_state
  reg_contract ← or_fail s.registration_contract registration_not_configured
  let old_level = get_current_level s player_id
  fail_if (level_eq old_level target_level) no_level_change
  record_progress_entry env player_id old_level target_level admin 0
  modify (set_level player_id target_level)
  sync_registration env reg_contract player_id target_level
  emit (player_level_reset admin player_id old_level target_level)
