-- ===== src/Progress/Levels/Config.antt =====
-- The level changes of contracts/progress/src/lib.rs and the contract's configuration.
use scout_off_contracts.Prelude.{ℕ, ◌≡◌, ◌∙◌, ap, Bool, Option, List, or_default, arith}
use scout_off_contracts.Shared.Level.{Level}
use scout_off_contracts.Shared.SafeMath.{safe_add_u32}
use scout_off_contracts.Contract.{ok, pure, >>=-inv, or_fail-inv, or_trap-inv}
use scout_off_contracts.Progress.Types.{
  Address, Hash, Host, Env, State, Effect, ProgressEntry, overflow,
}
use scout_off_contracts.Progress.Hashing.{leaf_hash}
use scout_off_contracts.Progress.Merkle.{frontier_append}
use scout_off_contracts.Progress.Storage.{load_or_build_frontier}
use scout_off_contracts.Progress.History.{
  store_entry, append_page, append_leaf, new_entry, record_progress_entry,
}
use scout_off_contracts.Progress.Levels.{set_level}
use scout_off_contracts.Progress.Levels.Advance.{Advanced}
use scout_off_contracts.Progress.Levels.Reset.{WasReset}

pub record SameConfig (s t : State) : Type 0 where
  pub admin : t.admin ≡ s.admin
  pub pending_admin : t.pending_admin ≡ s.pending_admin
  pub initialized : t.initialized ≡ s.initialized
  pub paused : t.paused ≡ s.paused
  pub verification_contract : t.verification_contract ≡ s.verification_contract
  pub registration_contract : t.registration_contract ≡ s.registration_contract
  pub scout_access_contract : t.scout_access_contract ≡ s.scout_access_contract
  pub schema_version : t.schema_version ≡ s.schema_version
  pub migration_active : t.migration_active ≡ s.migration_active
  pub migration_window_sealed : t.migration_window_sealed ≡ s.migration_window_sealed

SameConfig-trans : {s t u : State} → SameConfig s t → SameConfig t u → SameConfig s u
SameConfig-trans a b = record {
  admin = b.admin ∙ a.admin;
  pending_admin = b.pending_admin ∙ a.pending_admin;
  initialized = b.initialized ∙ a.initialized;
  paused = b.paused ∙ a.paused;
  verification_contract = b.verification_contract ∙ a.verification_contract;
  registration_contract = b.registration_contract ∙ a.registration_contract;
  scout_access_contract = b.scout_access_contract ∙ a.scout_access_contract;
  schema_version = b.schema_version ∙ a.schema_version;
  migration_active = b.migration_active ∙ a.migration_active;
  migration_window_sealed = b.migration_window_sealed ∙ a.migration_window_sealed;
}

append_leaf-SameConfig :
    (host : Host) (player_id prior : ℕ) (entry : ProgressEntry) {s t : State} {root : Hash}
    → append_leaf host player_id prior entry s ≡ ok (root, t)
    → SameConfig s t
unfolding append_leaf
append_leaf-SameConfig host player_id prior entry {s} e =
    let (frontier, loaded, e₁) =
      or_trap-inv (load_or_build_frontier host s player_id prior) _ {s = s} e in
    let (frontier', appended, e₂) =
      or_trap-inv (frontier_append host frontier (leaf_hash host entry)) _ {s = s} e₁ in
    ground arith

record_progress_entry-SameConfig :
    (env : Env) (player_id : ℕ) (old_level new_level : Level) (updated_by : Address)
    (milestone_ref : ℕ) {s t : State}
    → record_progress_entry env player_id old_level new_level updated_by milestone_ref s
      ≡ ok (tt, t)
    → SameConfig s t
unfolding record_progress_entry
record_progress_entry-SameConfig env player_id old_level new_level updated_by milestone_ref {s} e =
    let index = or_default 0 (s.history_counter player_id) in
    let (next_index, fits, e₁) = or_fail-inv (safe_add_u32 index 1) overflow _ {s = s} e in
    let added = new_entry env player_id old_level new_level updated_by milestone_ref in
    let stored =
      append_page player_id next_index added (store_entry player_id next_index added s) in
    let (root, u, leaf, e₂) =
      >>=-inv (append_leaf env.host player_id index added) (λ _. pure tt) {s = stored} e₁ in
    let leafed = append_leaf-SameConfig env.host player_id index added leaf in
    unfold append_page store_entry in ground arith

-- The rest of a change: the level and the effects.
set_level-SameConfig :
    (player_id : ℕ) (level : Level) (effects : List Effect) {s u t : State}
    → SameConfig s u
    → t ≡ record (set_level player_id level u) { effects = effects }
    → SameConfig s t
unfolding set_level
set_level-SameConfig player_id level effects c e = record {
  admin = ap (λ (x : State). x.admin) e ∙ c.admin;
  pending_admin = ap (λ (x : State). x.pending_admin) e ∙ c.pending_admin;
  initialized = ap (λ (x : State). x.initialized) e ∙ c.initialized;
  paused = ap (λ (x : State). x.paused) e ∙ c.paused;
  verification_contract = ap (λ (x : State). x.verification_contract) e ∙ c.verification_contract;
  registration_contract = ap (λ (x : State). x.registration_contract) e ∙ c.registration_contract;
  scout_access_contract = ap (λ (x : State). x.scout_access_contract) e ∙ c.scout_access_contract;
  schema_version = ap (λ (x : State). x.schema_version) e ∙ c.schema_version;
  migration_active = ap (λ (x : State). x.migration_active) e ∙ c.migration_active;
  migration_window_sealed =
      ap (λ (x : State). x.migration_window_sealed) e ∙ c.migration_window_sealed;
}

pub Advanced-SameConfig :
    (env : Env) (caller : Address) (caller_is_secondary : Bool)
    (verification_contract : Option Address) (player_id milestone_ref : ℕ) {s t : State}
    {level : Level}
    → Advanced env caller caller_is_secondary verification_contract player_id milestone_ref s t
        level
    → SameConfig s t
Advanced-SameConfig env caller caller_is_secondary verification_contract player_id milestone_ref {s}
      {t} {level} a =
    set_level-SameConfig player_id level _
      (record_progress_entry-SameConfig env player_id _ level caller milestone_ref a.appended)
      a.result

pub WasReset-SameConfig :
    (env : Env) (player_id : ℕ) (target_level : Level) {s t : State}
    → WasReset env player_id target_level s t
    → SameConfig s t
WasReset-SameConfig env player_id target_level r =
    set_level-SameConfig player_id target_level _
      (record_progress_entry-SameConfig env player_id _ target_level r.admin 0 r.appended) r.result
