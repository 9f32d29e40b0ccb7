-- ===== src/Progress/Tests/Config.antt =====
-- Administration, erasure and migration on concrete calls.
use scout_off_contracts.Prelude.{◌≡◌, refl, true, false, none, some, [], ◌∷◌}
use scout_off_contracts.Shared.Admin.{require_admin}
use scout_off_contracts.Contract.{ok}
use scout_off_contracts.Progress.Types.{State, MigrationStatus}
use scout_off_contracts.Progress.Storage.{get_current_level}
use scout_off_contracts.Shared.Level.{next}
use scout_off_contracts.Shared.SafeMath.{safe_add_u32}
use scout_off_contracts.Progress.Merkle.{frontier_append}
use scout_off_contracts.Progress.History.{
  record_progress_entry, append_leaf, append_page, store_entry,
}
use scout_off_contracts.Progress.Levels.{
  advance_level, advance_level_authorized, advance_one_tier, check_milestone, sync_registration,
  set_level,
}
use scout_off_contracts.Progress.Admin.{close_migration_window}
use scout_off_contracts.Progress.Seeding.{purge_player_data}
use scout_off_contracts.Progress.Seeding.Purge.{Kept, purge_player_data-Kept}
use scout_off_contracts.Progress.Schema.{migrate, migration_status, read_schema_version}
use scout_off_contracts.Progress.Schema.Migrate.{migrate_again, migrate_nothing}
use scout_off_contracts.Progress.Ledger.{
  commit, run, serve, open_window_request, accept_request, pause_request,
}
use scout_off_contracts.Progress.Ledger.Window.{
  IsSealed, AdminStep, close_migration_window-IsSealed, serve-AdminStep,
}
use scout_off_contracts.Progress.Tests.{test_env, set_up, one_entry}

abbrev window_open : State
window_open = record set_up { migration_active = some true }

abbrev window_closed : State
window_closed = commit window_open (close_migration_window test_env window_open)

window_open-closed : close_migration_window test_env window_open ≡ ok (tt, window_closed)
unfolding close_migration_window require_admin
window_open-closed = refl

close_migration_window-IsSealed_example :
    IsSealed (run ((test_env, open_window_request) ∷ (test_env, pause_request) ∷ []) window_closed)
close_migration_window-IsSealed_example =
    close_migration_window-IsSealed test_env
      ((test_env, open_window_request) ∷ (test_env, pause_request) ∷ []) window_open window_closed
      window_open-closed

abbrev proposed : State
proposed = record set_up { pending_admin = some 12 }

serve-AdminStep_example : AdminStep test_env proposed (serve test_env accept_request proposed)
serve-AdminStep_example = serve-AdminStep test_env accept_request proposed

abbrev purged : State
purged = commit one_entry (purge_player_data test_env 1 0 one_entry)

one_entry-purged : purge_player_data test_env 1 0 one_entry ≡ ok ((1, false), purged)
unfolding purge_player_data require_admin advance_level advance_level_authorized check_milestone
    advance_one_tier next get_current_level record_progress_entry safe_add_u32 append_leaf
    append_page store_entry frontier_append sync_registration set_level
one_entry-purged = refl

purge_player_data-Kept_example : Kept 1 one_entry purged
purge_player_data-Kept_example =
    purge_player_data-Kept test_env 1 0 one_entry purged (1, false) one_entry-purged

abbrev version_0 : State
version_0 = record set_up { schema_version = none }

abbrev migrated : State
migrated = commit version_0 (migrate test_env 1 2 version_0)

version_0-migrated : migrate test_env 1 2 version_0 ≡ ok (migration_status migrated 0 1, migrated)
unfolding migrate require_admin read_schema_version
version_0-migrated = refl

migrate_again_example :
    (read_schema_version migrated ≡ 1)
    × (migrate test_env 1 5 migrated ≡ ok (migration_status migrated 1 1, migrated))
migrate_again_example =
    migrate_again test_env 1 2 5 version_0 migrated (migration_status migrated 0 1)
      version_0-migrated

version_0-old : read_schema_version version_0 ≡ 0
unfolding read_schema_version
version_0-old = refl

migrate_nothing_example :
    (status : MigrationStatus) × (t : State) × (migrate test_env 1 0 version_0 ≡ ok (status, t))
    × (status.complete ≡ true)
    × (read_schema_version t ≡ 1)
    × (t.history_vec ≡ version_0.history_vec)
migrate_nothing_example = migrate_nothing test_env version_0 9 refl refl version_0-old
