-- ===== src/Progress/Levels/Kept.antt =====
-- The entry that a level change of contracts/progress/src/lib.rs appends, and the stored levels.
use scout_off_contracts.Prelude.{
  ℕ, ◌+◌, ◌≤◌, ◌≡◌, ◌≢◌, ◌∙◌, sym, subst, ap, Option, some, List, or_default, arith, ne→==, ==_refl,
}
use scout_off_contracts.Prelude.Words.{u32_max}
use scout_off_contracts.Shared.Level.{Level}
use scout_off_contracts.Shared.SafeMath.{safe_add_u32}
use scout_off_contracts.Contract.{ok, pure, >>=-inv, or_fail-inv, or_trap-inv}
use scout_off_contracts.Progress.Types.{
  Address, Hash, Host, Env, State, Effect, ProgressEntry, overflow,
}
use scout_off_contracts.Progress.Hashing.{leaf_hash}
use scout_off_contracts.Progress.Merkle.{frontier_append}
use scout_off_contracts.Progress.Storage.{load_or_build_frontier}
use scout_off_contracts.Progress.History.{
  store_entry, append_page, append_leaf, new_entry, record_progress_entry,
}
use scout_off_contracts.Progress.Levels.{set_level}

-- A leaf changes the root and the frontier only.
append_leaf-kept :
    (host : Host) (player_id prior : ℕ) (entry : ProgressEntry) (s t : State) (root : Hash)
    → append_leaf host player_id prior entry s ≡ ok (root, t)
    → (t.player_level ≡ s.player_level)
      × (t.history_counter ≡ s.history_counter)
      × (t.history_entry ≡ s.history_entry)
      × (t.effects ≡ s.effects)
unfolding append_leaf
append_leaf-kept host player_id prior entry s t root e =
    let (frontier, loaded, e₁) =
      or_trap-inv (load_or_build_frontier host s player_id prior) _ {s = s} e in
    let (frontier', appended, e₂) =
      or_trap-inv (frontier_append host frontier (leaf_hash host entry)) _ {s = s} e₁ in
    (ground arith, ground arith, ground arith, ground arith)

-- One entry more under the next key, which the counter counts, and the earlier ones as they were.
pub record IsAppended (env : Env) (player_id : ℕ) (old_level new_level : Level)
    (updated_by : Address) (milestone_ref : ℕ) (s t : State) : Type 0 where
  pub fits : or_default 0 (s.history_counter player_id) + 1 ≤ u32_max
  pub counter : t.history_counter player_id ≡ some (or_default 0 (s.history_counter player_id) + 1)
  pub entry :
      t.history_entry player_id (or_default 0 (s.history_counter player_id) + 1)
      ≡ some (record {
        player_id = player_id;
        old_level = old_level;
        new_level = new_level;
        updated_by = updated_by;
        updated_at = env.timestamp;
        milestone_ref = milestone_ref;
        ledger_sequence = env.sequence;
      })
  pub earlier :
      (index : ℕ)
      → index ≢ or_default 0 (s.history_counter player_id) + 1
      → t.history_entry player_id index ≡ s.history_entry player_id index

-- An entry that was recorded was appended, with no event and no level written.
pub record_progress_entry-IsAppended :
    (env : Env) (player_id : ℕ) (old_level new_level : Level) (updated_by : Address)
    (milestone_ref : ℕ) (s t : State)
    → record_progress_entry env player_id old_level new_level updated_by milestone_ref s
      ≡ ok (tt, t)
    → IsAppended env player_id old_level new_level updated_by milestone_ref s t
      × (t.player_level ≡ s.player_level)
      × (t.effects ≡ s.effects)
unfolding record_progress_entry append_page store_entry safe_add_u32
record_progress_entry-IsAppended env player_id old_level new_level updated_by milestone_ref s t e =
    let index = or_default 0 (s.history_counter player_id) in
    let (next_index, fits, e₁) = or_fail-inv (safe_add_u32 index 1) overflow _ {s = s} e in
    let added = new_entry env player_id old_level new_level updated_by milestone_ref in
    let stored =
      append_page player_id next_index added (store_entry player_id next_index added s) in
    let (root, u, leaf, e₂) =
      >>=-inv (append_leaf env.host player_id index added) (λ _. pure tt) {s = stored} e₁ in
    let (levels, counters, entries, effects) =
      append_leaf-kept env.host player_id index added stored u root leaf in
    let same : u ≡ t = ground arith in
    let next : next_index ≡ index + 1 = ground arith in
    let entry_key = λ (i : ℕ).
      sym (ap (λ (x : State). x.history_entry player_id i) same)
      ∙ ap (λ (f : ℕ → ℕ → Option ProgressEntry). f player_id i) entries in
    let counted : t.history_counter player_id ≡ some next_index =
      sym (ap (λ (x : State). x.history_counter player_id) same)
      ∙ ap (λ (f : ℕ → Option ℕ). f player_id) counters
      ∙ (rw (==_refl player_id)) in
    let keyed : t.history_entry player_id next_index ≡ some added =
      entry_key next_index ∙ (rw (==_refl player_id, ==_refl next_index)) in
    (
      record {
        fits = ground arith;
        counter = subst (λ n. t.history_counter player_id ≡ some n) next counted;
        entry = subst (λ n. t.history_entry player_id n ≡ some added) next keyed;
        earlier = λ i ne.
            (let apart = ne→== next_index i (λ same_key. ne (sym same_key ∙ next)) in
              entry_key i ∙ (rw (==_refl player_id, apart)));
      },
      cc (levels, same),
      cc (effects, same),
    )

-- The level that a change stores, and the levels that it leaves.
pub record LevelMoved (player_id : ℕ) (level : Level) (s t : State) : Type 0 where
  pub moved : t.player_level player_id ≡ some level
  pub others : (other : ℕ) → other ≢ player_id → t.player_level other ≡ s.player_level other

pub set_level-LevelMoved :
    (player_id : ℕ) (level : Level) (s after t : State) (effects : List Effect)
    → after.player_level ≡ s.player_level
    → t ≡ record (set_level player_id level after) { effects = effects }
    → LevelMoved player_id level s t
unfolding set_level
set_level-LevelMoved player_id level s after t effects kept e = record {
  moved = ap (λ (x : State). x.player_level player_id) e ∙ (rw (==_refl player_id));
  others = λ other ne.
      (let apart = ne→== player_id other (λ e. ne (sym e)) in
        ap (λ (x : State). x.player_level other) e ∙ (rw apart (ap (λ f. f other) kept)));
}
