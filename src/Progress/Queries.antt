-- ===== src/Progress/Queries.antt =====
-- The views of contracts/progress/src/lib.rs over a player's level, history and commitment.
pub mod Proofs
pub mod Descent
pub mod Soundness
pub mod Pages
pub mod Scanning
pub mod Since
use scout_off_contracts.Prelude.{
  ℕ, zero, suc, ◌+◌, ◌-◌, ◌*◌, min, max, Bool, true, false, ◌||◌, not, Option, none, some, List, [],
  ◌∷◌, ◌++◌, ltb, leb, ◌==◌, if◌then◌else◌, or_default, length, is_some,
}
use scout_off_contracts.Prelude.Words.{sat_add32}
use scout_off_contracts.Shared.Level.{Level, unverified}
use scout_off_contracts.Contract.{
  Outcome, ok, err, trap, get_state, fail_if, or_fail, or_trap, pure, ◌>>=◌, ◌>>◌,
}
use scout_off_contracts.Progress.Types.{
  Hash, Env, State, Call, ProgressEntry, ProgressError, HistoryProofStep, HistorySince,
  history_entry_not_found, player_not_found, history_too_long_for_proof,
  player_level_record_evicted, player_level_record_restored, history_page_size,
}
use scout_off_contracts.Progress.Hashing.{leaf_hashes, zero_hash}
use scout_off_contracts.Progress.Merkle.{path_range, compute_root_from_proof}
use scout_off_contracts.Progress.Storage.{
  admin_auth, emit, collect, page_or_entries, read_history_pages, total_pages,
}

unfoldable pub get_level : State → ℕ → Level
get_level s player_id = or_default unverified (s.player_level player_id)

unfoldable pub restore_player_level_record : Env → ℕ → Call (Unit {0})
restore_player_level_record env player_id = do
  admin ← admin_auth env
  s ← get_state
  or_fail (s.player_level player_id) player_level_record_evicted
  emit (player_level_record_restored admin player_id)

unfoldable pub get_history_count : State → ℕ → ℕ
get_history_count s player_id = or_default 0 (s.history_counter player_id)

unfoldable pub get_history_entry : State → ℕ → ℕ → Outcome ProgressError ProgressEntry
get_history_entry s player_id index = elim (s.history_entry player_id index) [
  | none ↦ err history_entry_not_found
  | some entry ↦ ok entry
]

unfoldable pub get_progress_history : State → ℕ → List ProgressEntry
unfolding read_history_pages
get_progress_history s player_id = read_history_pages s player_id

-- `limit.clamp(1, MAX_PAGE)`.
abbrev pub clamp_limit : ℕ → ℕ
clamp_limit limit = max 1 (min limit 50)

unfoldable pub get_progress_history_page : State → ℕ → ℕ → ℕ → List ProgressEntry
get_progress_history_page s player_id offset limit =
    let count = or_default 0 (s.history_counter player_id) in
    if leb count offset
    then []
    else (let start = sat_add32 offset 1 in
        let end = min (sat_add32 start (clamp_limit limit) - 1) count in
        collect (s.history_entry player_id) start (end + 1 - start))

-- The entries, the next index and the snapshot count.
unfoldable pub get_history_page_with_cursor :
    State → ℕ → Option ℕ → Option ℕ → ℕ → List ProgressEntry × ℕ × ℕ
get_history_page_with_cursor s player_id cursor_snapshot cursor_next_index limit =
    let current_count = or_default 0 (s.history_counter player_id) in
    let snapshot_count : ℕ = elim cursor_snapshot [
      | none ↦ current_count
      | some c ↦ min c current_count
    ] in
    let next_index = or_default 1 cursor_next_index in
    if snapshot_count == 0 || next_index == 0 || ltb snapshot_count next_index
    then ([], 0, snapshot_count)
    else (let end = min (sat_add32 next_index (clamp_limit limit) - 1) snapshot_count in
        (
          collect (s.history_entry player_id) next_index (end + 1 - next_index),
          if leb snapshot_count end then 0 else sat_add32 end 1,
          snapshot_count,
        ))

-- How far a scan has come: it has returned, or it goes on with what it has so far.
pub data Scan : Type 0 where
  returned : List ProgressEntry → Bool → Scan
  going : List ProgressEntry → Scan

-- The inner loop, over the entries of a page that are left, newest first.
unfoldable pub scan_entries : ℕ → ℕ → List ProgressEntry → List ProgressEntry → Scan
scan_entries since_timestamp limit [] result = going result
scan_entries since_timestamp limit (entry ∷ rest) result =
    let more = scan_entries since_timestamp limit rest (result ++ entry ∷ []) in
    if ltb entry.updated_at since_timestamp
    then returned result false
    else if leb limit (length result)
    then returned result true
    else more

unfoldable pub newest_first : List ProgressEntry → List ProgressEntry
newest_first [] = []
newest_first (e ∷ es) = newest_first es ++ e ∷ []

-- The outer loop, over `n` pages down from the one below `page_bound`.
unfoldable pub scan_pages : State → ℕ → ℕ → ℕ → ℕ → ℕ → ℕ → List ProgressEntry → Scan
scan_pages s player_id count since_timestamp limit page_bound zero result = going result
scan_pages s player_id count since_timestamp limit page_bound (suc n) result =
    let page = page_or_entries s player_id count (page_bound - 1) in
    elim (scan_entries since_timestamp limit (newest_first page) result) [
      | returned r t ↦ returned r t
      | going r ↦ scan_pages s player_id count since_timestamp limit (page_bound - 1) n r
    ]

unfoldable pub history_since : State → ℕ → ℕ → ℕ → HistorySince
history_since s player_id since_timestamp limit =
    let count = or_default 0 (s.history_counter player_id) in
    let pages = total_pages count in
    let pages_to_scan = min pages 10 in
    if count == 0
    then record { entries = []; truncated = false }
    else elim (scan_pages s player_id count since_timestamp (clamp_limit limit) pages pages_to_scan
        []) [
          | returned r t ↦ record { entries = r; truncated = t }
          | going r ↦ record { entries = r; truncated = ltb pages_to_scan pages }
        ]

unfoldable pub get_history_since : State → ℕ → ℕ → ℕ → List ProgressEntry
get_history_since s player_id since_timestamp limit =
    (history_since s player_id since_timestamp limit).entries

unfoldable pub get_history_since_v2 : State → ℕ → ℕ → ℕ → HistorySince
get_history_since_v2 s player_id since_timestamp limit =
    history_since s player_id since_timestamp limit

unfoldable pub get_progress_root : State → ℕ → Hash
get_progress_root s player_id = or_default zero_hash (s.history_root player_id)

abbrev pub max_history_proof_entries : ℕ
max_history_proof_entries = 512

unfoldable pub get_history_proof : Env → ℕ → ℕ → Call (List HistoryProofStep)
get_history_proof env player_id index = do
  s ← get_state
  fail_if (ltb max_history_proof_entries (or_default 0 (s.history_counter player_id)))
      history_too_long_for_proof
  let history = read_history_pages s player_id
  let n = length history
  fail_if (n == 0 || (index == 0 || ltb n index)) player_not_found
  fail_if (ltb max_history_proof_entries n) history_too_long_for_proof
  or_trap (path_range env.host (leaf_hashes env.host history) (index - 1) 0 n)

-- `==` of two hashes.
unfoldable pub hash_eq : Hash → Hash → Bool
hash_eq [] [] = true
hash_eq [] (b ∷ bs) = false
hash_eq (a ∷ as') [] = false
hash_eq (a ∷ as') (b ∷ bs) = if a == b then hash_eq as' bs else false

abbrev pub max_proof_steps : ℕ
max_proof_steps = 32

unfoldable pub verify_history_proof : Env → ℕ → ProgressEntry → List HistoryProofStep → Call Bool
verify_history_proof env player_id entry proof = do
  s ← get_state
  stored_root ← or_fail (s.history_root player_id) player_not_found
  pure (
      if ltb max_proof_steps (length proof)
      then false
      else if not (entry.player_id == player_id)
      then false
      else hash_eq (compute_root_from_proof env.host entry proof) stored_root)
