-- ===== src/Progress/Tests/Levels.antt =====
-- The level changes on concrete calls.
use scout_off_contracts.Prelude.{
  ℕ, ◌+◌, ◌≢◌, or_default, ◌≡◌, refl, true, some, List, [], ◌∷◌, arith, inr,
}
use scout_off_contracts.Shared.Level.{
  next, rank, unverified, verified_identity, elite_tier, level_eq,
}
use scout_off_contracts.Shared.Admin.{require_admin}
use scout_off_contracts.Shared.SafeMath.{safe_add_u32}
use scout_off_contracts.Contract.{ok}
use scout_off_contracts.Progress.Types.{
  Hash, Env, State, FrontierPeak, progress_updated, player_level_reset,
}
use scout_off_contracts.Progress.Storage.{get_current_level}
use scout_off_contracts.Progress.Merkle.{frontier_append}
use scout_off_contracts.Progress.History.{
  record_progress_entry, append_leaf, append_page, store_entry,
}
use scout_off_contracts.Progress.History.Invariant.{HasHistory}
use scout_off_contracts.Progress.History.Record.{recorded, record_progress_entry-HasHistory}
use scout_off_contracts.Progress.Levels.{
  advance_level, advance_level_for_scout, advance_level_authorized, advance_one_tier,
  reset_player_level, check_milestone, sync_registration, set_level,
}
use scout_off_contracts.Progress.Levels.Entry.{IsLive}
use scout_off_contracts.Progress.Levels.Outcome.{
  KnowsMilestone, Admitted, IsChanged, advance_level-IsChanged, advance_level_for_scout-IsChanged,
  reset_player_level-IsChanged,
}
use scout_off_contracts.Progress.Levels.Returns.{advance_level-returns}
use scout_off_contracts.Progress.Ledger.{
  commit, run, Request, advance_request, advance_for_scout_request, reset_request,
}
use scout_off_contracts.Progress.Ledger.History.{AllGrow, run-AllGrow}
use scout_off_contracts.Progress.Tests.{
  test_host, test_env, set_up, set_up-AllHold, set_up-PlayerHolds, one_entry, one_entry-advanced,
  first_entry,
}

-- An advance, a reset and another advance of the same player.
abbrev calls : List (Env × Request)
calls =
    (test_env, advance_request 7 1 1)
    ∷ (test_env, reset_request 1 unverified)
    ∷ (test_env, advance_for_scout_request 3 1 2)
    ∷ []

run-AllGrow_example : AllGrow test_host (λ player_id. []) (run calls set_up)
run-AllGrow_example =
    run-AllGrow test_host calls (λ player_id. []) set_up (refl, (refl, (refl, tt))) set_up-AllHold

record_progress_entry-HasHistory_example :
    (root : Hash) × (ps : List FrontierPeak) × (record_progress_entry test_env 1 unverified
        verified_identity 7 1 set_up
      ≡ ok (tt, recorded test_env set_up 1 [] unverified verified_identity 7 1 root ps))
    × HasHistory test_host
        (recorded test_env set_up 1 [] unverified verified_identity 7 1 root ps)
        1
        (first_entry ∷ [])
record_progress_entry-HasHistory_example =
    record_progress_entry-HasHistory test_env set_up 1 [] unverified verified_identity 7 1
      set_up-PlayerHolds.stored (omega arith)

advance_level-IsChanged_example :
    IsLive set_up
    × Admitted test_env set_up 7 1 1
    × (rank verified_identity ≡ rank unverified + 1)
    × IsChanged test_env 1 verified_identity 7 1
        (progress_updated 1 unverified verified_identity 7 1)
        set_up
        one_entry
advance_level-IsChanged_example = advance_level-IsChanged test_env 7 1 1 one_entry-advanced

abbrev by_scout : State
by_scout = commit set_up (advance_level_for_scout test_env 3 1 2 set_up)

by_scout-advanced : advance_level_for_scout test_env 3 1 2 set_up ≡ ok (verified_identity, by_scout)
unfolding advance_level_for_scout advance_level_authorized check_milestone advance_one_tier next
    get_current_level record_progress_entry safe_add_u32 append_leaf append_page store_entry
    frontier_append sync_registration
by_scout-advanced = refl

advance_level_for_scout-IsChanged_example :
    IsLive set_up
    × ((secondary : ℕ) × (some 8 ≡ some secondary) × (true ≡ true))
    × KnowsMilestone test_env true (some 7) 1 2
    × (rank verified_identity ≡ rank unverified + 1)
    × IsChanged test_env 1 verified_identity 3 2
        (progress_updated 1 unverified verified_identity 3 2)
        set_up
        by_scout
advance_level_for_scout-IsChanged_example =
    advance_level_for_scout-IsChanged test_env 3 1 2 by_scout-advanced

set_up-IsLive : IsLive set_up
set_up-IsLive = record { running = refl; initialized = refl }

advance_level-returns_example :
    (t : State) × (advance_level test_env 7 1 1 set_up ≡ ok (verified_identity, t))
unfolding check_milestone next get_current_level
advance_level-returns_example =
    advance_level-returns test_env 7 1 1 [] set_up 5 verified_identity set_up-IsLive
      (inr (refl, 7, refl, refl)) refl refl refl refl set_up-PlayerHolds.stored (omega arith)

abbrev after_reset : State
after_reset = commit one_entry (reset_player_level test_env 1 elite_tier one_entry)

one_entry-reset : reset_player_level test_env 1 elite_tier one_entry ≡ ok (tt, after_reset)
unfolding reset_player_level advance_level advance_level_authorized check_milestone advance_one_tier
    next get_current_level record_progress_entry safe_add_u32 append_leaf append_page store_entry
    frontier_append sync_registration set_level require_admin level_eq
one_entry-reset = refl

reset_player_level-IsChanged_example :
    IsLive one_entry
    × ((admin : ℕ) × (one_entry.admin ≡ some admin)
        × (true ≡ true)
        × IsChanged test_env 1 elite_tier admin 0
            (player_level_reset admin 1
              (or_default unverified (one_entry.player_level 1))
              elite_tier)
            one_entry
            after_reset)
    × (or_default unverified (one_entry.player_level 1) ≢ elite_tier)
reset_player_level-IsChanged_example =
    reset_player_level-IsChanged test_env 1 elite_tier one_entry after_reset one_entry-reset
