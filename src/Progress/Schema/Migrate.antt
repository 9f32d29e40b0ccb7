-- ===== src/Progress/Schema/Migrate.antt =====
-- `migrate` of contracts/progress/src/lib.rs called again.
use scout_off_contracts.Prelude.{
  ℕ, zero, suc, ◌≤◌, ◌≡◌, refl, sym, ◌∙◌, ap, true, Bool-cases, inl, inr, some, arith, ◌∷◌, ltb,
  ◌==◌, or_default,
}
use scout_off_contracts.Shared.Admin.{require_admin}
use scout_off_contracts.Contract.{ok, lift-inv, fail_if-inv}
use scout_off_contracts.Progress.Types.{
  Address, schema_migrated, Env, State, MigrationStatus, not_initialized, schema_version_too_new,
  unknown_schema_target, code_schema_version,
}
use scout_off_contracts.Prelude.Words.{sat_add32, sat_add64}
use scout_off_contracts.Progress.Levels.Reset.{require_admin-inv}
use scout_off_contracts.Progress.Schema.{
  read_schema_version, read_cursor, read_processed, migration_status, backfill_player,
  backfill_loop, backfill_history_vec, migrate,
}

backfill_loop-admin :
    (n cursor processed : ℕ) (s : State) → (backfill_loop n cursor processed s).admin ≡ s.admin
unfolding backfill_loop backfill_player
backfill_loop-admin zero cursor processed s = refl
backfill_loop-admin (suc n) cursor processed s =
    let here : (backfill_player (sat_add64 cursor 1) s).admin ≡ s.admin = ground arith in
    backfill_loop-admin n (sat_add64 cursor 1) (sat_add32 processed 1)
      (record (backfill_player (sat_add64 cursor 1) s) {
        migration_cursor = some (sat_add64 cursor 1);
      })
    ∙ here

backfill_history_vec-admin :
    (max_items : ℕ) (s : State) → (backfill_history_vec max_items s).admin ≡ s.admin
unfolding backfill_history_vec
backfill_history_vec-admin max_items s =
    let loop = backfill_loop-admin max_items (read_cursor s) (read_processed s) s in
    ground (arith, loop)

-- Storage at the target: nothing to do.
migrate_settled :
    (env : Env) (target_version max_items : ℕ) (t : State) {admin : Address}
    → t.admin ≡ some admin
    → env.authorized admin ≡ true
    → or_default 0 t.schema_version ≡ target_version
    → target_version ≤ 1
    → migrate env target_version max_items t
      ≡ ok (migration_status t target_version target_version, t)
unfolding migrate read_schema_version require_admin
migrate_settled env target_version max_items t administered given settled known =
    ground (arith, administered, given, settled, known)

migrate-inv :
    (env : Env) (target_version max_items : ℕ) (s t : State) (status : MigrationStatus)
    → migrate env target_version max_items s ≡ ok (status, t)
    → (admin : Address) × (t.admin ≡ some admin)
      × (env.authorized admin ≡ true)
      × (or_default 0 t.schema_version ≡ target_version)
      × (target_version ≤ 1)
unfolding migrate read_schema_version
migrate-inv env target_version max_items s t status e =
    let (admin, checked, e₁) =
      lift-inv (require_admin s.admin env.authorized not_initialized) _ {s = s} e in
    let (administered, given) =
      require_admin-inv s.admin env.authorized not_initialized admin checked in
    let (old, e₂) =
      fail_if-inv (ltb target_version (or_default 0 s.schema_version)) schema_version_too_new _
        {s = s} e₁ in
    let (known, e₃) =
      fail_if-inv (ltb code_schema_version target_version) unknown_schema_target _ {s = s} e₂ in
    elim (Bool-cases (or_default 0 s.schema_version == target_version)) [
      | inl same ↦
          let done : s ≡ t = ground (arith, same, e₃) in
          (
            admin,
            ap (λ (u : State). u.admin) (sym done) ∙ administered,
            given,
            ap (λ (u : State). or_default 0 u.schema_version) (sym done) ∙ (ground (arith, same)),
            ground arith,
          )
      | inr ahead ↦
          let kept = backfill_history_vec-admin max_items s in
          (
            admin,
            ground (arith, kept, administered, ahead, e₃),
            given,
            ground (arith, ahead, e₃),
            ground arith,
          )
    ]

-- A migration that returned has stored its target, and migrating to that target again, with any
-- `max_items`, returns, reports the target and changes nothing.
pub migrate_again :
    (env : Env) (target_version max_items max_items' : ℕ) (s t : State) (status : MigrationStatus)
    → migrate env target_version max_items s ≡ ok (status, t)
    → (read_schema_version t ≡ target_version)
      × (migrate env target_version max_items' t
          ≡ ok (migration_status t target_version target_version, t))
unfolding read_schema_version
migrate_again env target_version max_items max_items' s t status e =
    let (admin, administered, given, settled, known) =
      migrate-inv env target_version max_items s t status e in
    (settled, migrate_settled env target_version max_items' t administered given settled known)

-- On storage of version 0, an authorised `migrate` to version 1 with `max_items` 0 returns: it reports that the
-- migration is complete and stores version 1, and it has written no history vector.
pub migrate_nothing :
    (env : Env) (s : State) (admin : Address)
    → s.admin ≡ some admin
    → env.authorized admin ≡ true
    → read_schema_version s ≡ 0
    → (status : MigrationStatus) × (t : State) × (migrate env 1 0 s ≡ ok (status, t))
      × (status.complete ≡ true)
      × (read_schema_version t ≡ 1)
      × (t.history_vec ≡ s.history_vec)
unfolding migrate read_schema_version require_admin backfill_history_vec migration_status
migrate_nothing env s admin administered given old =
    let t = record s {
      schema_version = some 1;
      effects = schema_migrated (read_schema_version s) 1 ∷ s.effects;
    } in
    (
      migration_status t (read_schema_version s) 1,
      t,
      ground (arith, administered, given, old),
      refl,
      refl,
      refl,
    )
