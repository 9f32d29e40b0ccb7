-- ===== src/Progress/Seeding.antt =====
-- Replaying and erasing history: `admin_seed_history` and `purge_player_data` of
-- contracts/progress/src/lib.rs.
pub mod Purge
use scout_off_contracts.Prelude.{
  ℕ, zero, suc, ◌+◌, ◌-◌, ◌/◌, min, Bool, true, false, ◌&&◌, ◌||◌, not, Option, none, some, List,
  [], ◌∷◌, ◌++◌, ltb, ◌==◌, if◌then◌else◌, or_default, is_some,
}
use scout_off_contracts.Prelude.Words.{u32_max, checked_add}
use scout_off_contracts.Shared.Level.{Level, unverified, level_eq}
use scout_off_contracts.Shared.SafeMath.{safe_add_u32}
use scout_off_contracts.Contract.{
  get_state, modify, fail, fail_if, or_fail, or_trap, pure, skip, ◌>>=◌, ◌>>◌,
}
use scout_off_contracts.Progress.Types.{
  Hash, Env, State, Call, ProgressEntry, overflow, player_not_found, merkle_root_mismatch,
  invalid_history_index, history_already_exists, seed_player_mismatch, seed_level_discontinuity,
  seed_timestamp_regression, player_data_purged, update₂, remove, remove₂, history_page_size,
}
use scout_off_contracts.Progress.Storage.{
  admin_auth, emit, require_initialized, require_migration_active, history_page_index,
}
use scout_off_contracts.Progress.History.{store_entry, append_leaf}
use scout_off_contracts.Progress.Queries.{hash_eq}

-- The field-wise comparison of the idempotency check.
unfoldable pub same_entry : ProgressEntry → ProgressEntry → Bool
unfolding level_eq
same_entry a b =
    a.player_id == b.player_id
    && (level_eq a.old_level b.old_level
        && (level_eq a.new_level b.new_level
            && (a.updated_by == b.updated_by
                && (a.updated_at == b.updated_at
                    && (a.milestone_ref == b.milestone_ref
                        && a.ledger_sequence == b.ledger_sequence)))))

unfoldable pub verify_and_seal_root : ℕ → Hash → Call (Unit {0})
unfolding hash_eq
verify_and_seal_root player_id expected = do
  s ← get_state
  existing_root ← or_fail (s.history_root player_id) player_not_found
  fail_if (not (hash_eq existing_root expected)) merkle_root_mismatch

-- An entry is there already: a replay, or a conflict.
unfoldable pub seed_existing : ℕ → ProgressEntry → Option Hash → ProgressEntry → Call (Unit {0})
unfolding same_entry verify_and_seal_root
seed_existing player_id entry expected_root existing =
    if same_entry existing entry
    then elim expected_root [
      | none ↦ skip
      | some expected ↦ verify_and_seal_root player_id expected
    ]
    else fail history_already_exists

-- The level, the time and the ledger of the entry before.
unfoldable pub previous : State → ℕ → ℕ → Option (Level × ℕ × ℕ)
previous s player_id current_counter =
    if current_counter == 0
    then some (unverified, 0, 0)
    else elim (s.history_entry player_id current_counter) [
      | none ↦ none
      | some prev ↦ some (prev.new_level, prev.updated_at, prev.ledger_sequence)
    ]

-- Here a page that is not there yet starts empty.
unfoldable pub append_seed_page : ℕ → ℕ → ProgressEntry → State → State
unfolding history_page_index
append_seed_page player_id index entry s =
    let page_index = history_page_index index in
    let page = or_default [] (s.history_page player_id page_index) in
    record s { history_page = update₂ s.history_page player_id page_index (page ++ entry ∷ []) }

-- The guards on a new entry, and the writes.
unfoldable pub seed_new : Env → ℕ → ℕ → ProgressEntry → Option Hash → Call (Unit {0})
unfolding previous
seed_new env player_id history_index entry expected_root = do
  s ← get_state
  let current_counter = or_default 0 (s.history_counter player_id)
  expected_next ← or_fail (safe_add_u32 current_counter 1) overflow
  fail_if (not (history_index == expected_next)) invalid_history_index
  fail_if (not (entry.player_id == player_id)) seed_player_mismatch
  prev ← or_fail (previous s player_id current_counter) invalid_history_index
  fail_if (not (level_eq entry.old_level prev.0)) seed_level_discontinuity
  fail_if (ltb entry.updated_at prev.1 || ltb entry.ledger_sequence prev.2)
      seed_timestamp_regression
  modify (store_entry player_id history_index entry)
  modify (append_seed_page player_id history_index entry)
  root ← append_leaf env.host player_id current_counter entry
  elim expected_root [
    | none ↦ skip
    | some expected ↦ fail_if (not (hash_eq root expected)) merkle_root_mismatch
  ]

unfoldable pub admin_seed_history : Env → ℕ → ℕ → ProgressEntry → Option Hash → Call (Unit {0})
unfolding require_initialized require_migration_active seed_existing seed_new
admin_seed_history env player_id history_index entry expected_root = do
  admin_auth env
  require_initialized
  require_migration_active
  fail_if (history_index == 0) invalid_history_index
  s ← get_state
  elim (s.history_entry player_id history_index) [
    | some existing ↦ seed_existing player_id entry expected_root existing
    | none ↦ seed_new env player_id history_index entry expected_root
  ]

-- A removal, with the count of keys that were there.
abbrev pub counted : Bool → ℕ → ℕ
counted present removed = if present then removed + 1 else removed

-- The keys that the first page removes.
unfoldable pub purge_player_keys : ℕ → State → ℕ × State
purge_player_keys player_id s = (
  counted (is_some (s.history_vec player_id)) (
      counted (is_some (s.history_root player_id))
        (counted (is_some (s.player_level player_id)) 0)),
  record s {
    player_level = remove s.player_level player_id;
    history_root = remove s.history_root player_id;
    history_vec = remove s.history_vec player_id;
  },
)

-- The loop over `n` entry keys from `idx` on.
unfoldable pub purge_entries : ℕ → ℕ → ℕ → ℕ × State → ℕ × State
purge_entries player_id idx zero acc = acc
purge_entries player_id idx (suc n) (removed, s) =
    let page = (idx - 1) / history_page_size in
    purge_entries player_id (idx + 1) n (
      counted (is_some (s.history_page player_id page))
          (counted (is_some (s.history_entry player_id idx)) removed),
      record s {
        history_entry = remove₂ s.history_entry player_id idx;
        history_page = remove₂ s.history_page player_id page;
      },
    )

-- The last page removes the counter.
unfoldable pub purge_counter : ℕ → Bool → ℕ × State → ℕ × State
purge_counter player_id more (removed, s) = if more then (removed, s) else (
  counted (is_some (s.history_counter player_id)) removed,
  record s { history_counter = remove s.history_counter player_id },
)

-- The cursor for the next call, and whether there is more.
unfoldable pub purge_player_data : Env → ℕ → ℕ → Call (ℕ × Bool)
purge_player_data env player_id cursor = do
  admin ← admin_auth env
  s ← get_state
  let first : ℕ × State = if cursor == 0 then purge_player_keys player_id s else (0, s)
  let total = or_default 0 (s.history_counter player_id)
  start ← or_trap (checked_add u32_max cursor 1)
  page_end ← or_trap (checked_add u32_max start 50)
  past_total ← or_trap (checked_add u32_max total 1)
  let end = min page_end past_total
  let next_cursor = end - 1
  let more = ltb next_cursor total
  let done = purge_counter player_id more (purge_entries player_id start (end - start) first)
  modify (λ _. done.1)
  emit (player_data_purged admin player_id done.0 more)
  pure (next_cursor, more)
