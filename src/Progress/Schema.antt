-- ===== src/Progress/Schema.antt =====
-- The schema migration of contracts/progress/src/lib.rs.
pub mod Migrate
use scout_off_contracts.Prelude.{
  ℕ, zero, suc, Bool, true, false, ◌&&◌, not, Option, none, some, ltb, leb, ◌==◌, if◌then◌else◌,
  or_default, is_some,
}
use scout_off_contracts.Prelude.Words.{sat_add32, sat_add64}
use scout_off_contracts.Contract.{get_state, modify, fail_if, pure, skip, ◌>>=◌, ◌>>◌}
use scout_off_contracts.Progress.Types.{
  Env, State, Call, MigrationStatus, schema_migrated, schema_version_too_new, unknown_schema_target,
  update, code_schema_version,
}
use scout_off_contracts.Progress.Storage.{admin_auth, emit, collect}

unfoldable pub read_schema_version : State → ℕ
read_schema_version s = or_default 0 s.schema_version

unfoldable pub read_cursor : State → ℕ
read_cursor s = or_default 0 s.migration_cursor

unfoldable pub read_processed : State → ℕ
read_processed s = or_default 0 s.migration_processed

unfoldable pub migration_status : State → ℕ → ℕ → MigrationStatus
unfolding read_schema_version read_cursor read_processed
migration_status s from to =
    let current = read_schema_version s in
    record {
      from = from;
      to = to;
      code = code_schema_version;
      current = current;
      pending = ltb current code_schema_version;
      complete = leb code_schema_version current;
      last_visited_id = read_cursor s;
      processed = read_processed s;
    }

-- One player: the vector is written if there is a history and no vector yet.
unfoldable pub backfill_player : ℕ → State → State
unfolding collect
backfill_player player_id s =
    let count = or_default 0 (s.history_counter player_id) in
    if not (count == 0) && not (is_some (s.history_vec player_id))
    then record s {
      history_vec = update s.history_vec player_id (collect (s.history_entry player_id) 1 count);
    }
    else s

-- The loop over `n` player ids past the cursor.
unfoldable pub backfill_loop : ℕ → ℕ → ℕ → State → State
unfolding backfill_player
backfill_loop zero cursor processed s = record s { migration_processed = some processed }
backfill_loop (suc n) cursor processed s =
    let cursor' = sat_add64 cursor 1 in
    let s' = backfill_player cursor' s in
    backfill_loop n cursor' (sat_add32 processed 1) (record s' { migration_cursor = some cursor' })

unfoldable pub backfill_history_vec : ℕ → State → State
unfolding backfill_loop read_cursor read_processed
backfill_history_vec max_items s =
    if max_items == 0 then s else backfill_loop max_items (read_cursor s) (read_processed s) s

unfoldable pub migrate : Env → ℕ → ℕ → Call MigrationStatus
migrate env target_version max_items = do
  admin_auth env
  s ← get_state
  let from = read_schema_version s
  fail_if (ltb target_version from) schema_version_too_new
  fail_if (ltb code_schema_version target_version) unknown_schema_target
  if from == target_version then pure (migration_status s from target_version) else (do
    modify (λ t. if ltb from 1 && leb 1 target_version then backfill_history_vec max_items t else t)
    modify (λ t. record t { schema_version = some target_version })
    if leb 1 target_version then emit (schema_migrated from target_version) else skip
    t ← get_state
    pure (migration_status t from target_version))
