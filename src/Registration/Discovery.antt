-- ===== src/Registration/Discovery.antt =====
-- `filter_players` of contracts/registration/src/lib.rs.
pub mod Pages
pub mod Filter
pub mod Selected
use scout_off_contracts.Prelude.{
  ℕ, ◌+◌, Bool, true, false, not, ◌&&◌, ◌||◌, Option, none, some, List, [], ◌∷◌, ◌++◌, ltb, leb,
  ◌==◌, if◌then◌else◌, or_default, length, bytes_eq, min, max,
}
use scout_off_contracts.Prelude.Words.{u32_max, checked_add}
use scout_off_contracts.Shared.Level.{
  Level, rank, unverified, verified_identity, performance_milestones, elite_tier,
}
use scout_off_contracts.Shared.Types.{Text, PlayerProfile}
use scout_off_contracts.Contract.{Outcome, ok, err, trap}
use scout_off_contracts.Registration.Types.{Env, State, FilterResult, not_initialized}
use scout_off_contracts.Registration.Text.{normalize_filter_region, normalize_filter_position}
use scout_off_contracts.Registration.Storage.{region_bucket}
use scout_off_contracts.Registration.Queries.{Result, and_then, load_player, is_player_deactivated}

unfoldable pub level_gte : Level → Level → Bool
level_gte level min_level = leb (rank min_level) (rank level)

unfoldable pub levels : List Level
levels = unverified ∷ verified_identity ∷ performance_milestones ∷ elite_tier ∷ []

abbrev pub position_matches : Text → PlayerProfile → Bool
position_matches position profile =
    length position == 0 || bytes_eq profile.vitals.position position

-- The profile of an id that passes the tests of the loop's body. Deactivated and missing players do
-- not.
unfoldable pub candidate : Env → State → (PlayerProfile → Bool) → ℕ → Result (Option PlayerProfile)
candidate env s test player_id =
    if is_player_deactivated s player_id then ok none else elim (load_player env s player_id) [
      | ok profile ↦ if test profile then ok (some profile) else ok none
      | err e ↦ ok none
      | trap ↦ trap
    ]

-- The local variables of the loops: the results and the number of skipped candidates, or, after a
-- `break`, the results and the cursor.
pub data Scan : Type 0 where
  scanning : List PlayerProfile → ℕ → Scan
  stopped : List PlayerProfile → ℕ → Scan

-- One candidate. `skipped + results.len()` traps on overflow.
unfoldable pub scan_candidate : ℕ → ℕ → List PlayerProfile → ℕ → PlayerProfile → Result Scan
scan_candidate offset max_results results skipped profile =
    if ltb skipped offset
    then ok (scanning results (skipped + 1))
    else if leb max_results (length results)
    then elim (checked_add u32_max skipped (length results)) [
      | none ↦ trap
      | some next_cursor ↦ ok (stopped results next_cursor)
    ]
    else ok (scanning (results ++ profile ∷ []) skipped)

-- The loop over ids.
unfoldable pub scan_ids : (ℕ → Result (Option PlayerProfile)) → ℕ → ℕ → List ℕ → Scan → Result Scan
unfolding scan_candidate
scan_ids test offset max_results [] scan = ok scan
scan_ids test offset max_results (id ∷ ids) (stopped results next_cursor) =
    ok (stopped results next_cursor)
scan_ids test offset max_results (id ∷ ids) (scanning results skipped) = and_then (test id) λ found.
    elim found [
      | none ↦ scan_ids test offset max_results ids (scanning results skipped)
      | some profile ↦
          and_then (scan_candidate offset max_results results skipped profile)
            λ scan. scan_ids test offset max_results ids scan
    ]

-- The outer loop of the fast path, over the levels.
unfoldable pub scan_levels :
    State
    → (ℕ → Result (Option PlayerProfile))
    → ℕ
    → ℕ
    → Text
    → Level
    → List Level
    → Scan
    → Result Scan
scan_levels s test offset max_results region min_level [] scan = ok scan
scan_levels s test offset max_results region min_level (level ∷ rest) scan =
    and_then
      (if level_gte level min_level
        then scan_ids test offset max_results (region_bucket s level region) scan
        else ok scan)
      λ scanned. scan_levels s test offset max_results region min_level rest scanned

unfoldable pub filter_result : Scan → FilterResult
filter_result (scanning results skipped) = record {
  profiles = results;
  next_cursor = 0;
  has_more = false;
}
filter_result (stopped results next_cursor) = record {
  profiles = results;
  next_cursor = next_cursor;
  has_more = not (next_cursor == 0);
}

-- The scan of a call: the buckets of a region, or the whole player index.
unfoldable pub scan_players : Env → State → Text → Text → Level → ℕ → ℕ → Result Scan
scan_players env s region position min_level offset max_results =
    if length region == 0
    then scan_ids
        (candidate env s
          (λ profile. level_gte profile.level min_level && position_matches position profile))
        offset max_results (or_default [] s.player_index) (scanning [] 0)
    else scan_levels s (candidate env s (position_matches position)) offset max_results region
        min_level levels (scanning [] 0)

unfoldable pub filter_players : Env → State → Text → Text → Level → ℕ → ℕ → Result FilterResult
filter_players env s region position min_level offset limit =
    if not (or_default false s.initialized)
    then err not_initialized
    else and_then (normalize_filter_region region) λ canon_region.
      and_then (normalize_filter_position position) λ canon_position.
        and_then
          (scan_players env s canon_region canon_position min_level offset (min (max limit 1) 50))
          λ scan. ok (filter_result scan)
