-- ===== src/Progress/Levels/Change.antt =====
-- What `advance_level` and `reset_player_level` share: one more entry, then the level.
use native.Mathlib.Decide.{dec_lt}
use scout_off_contracts.Prelude.{
  ℕ, ◌≡◌, ◌≢◌, refl, sym, false, List, [], ◌∷◌, ◌++◌, arith, length, ◌==◌, ==_refl, ne→==,
}
use scout_off_contracts.Prelude.Words.{u32_max}
use scout_off_contracts.Shared.Level.{Level}
use scout_off_contracts.Contract.{ok}
use scout_off_contracts.Progress.Types.{Address, Hash, Env, State, ProgressEntry, FrontierPeak}
use scout_off_contracts.Progress.Storage.{get_current_level}
use scout_off_contracts.Progress.History.{new_entry, record_progress_entry}
use scout_off_contracts.Progress.History.Invariant.{HasHistory, SameFor}
use scout_off_contracts.Progress.History.Record.{
  recorded, record_progress_entry-HasHistory, record_progress_entry_overflow, recorded-SameFor,
}
use scout_off_contracts.Progress.Levels.{set_level}
use scout_off_contracts.Progress.Levels.Chain.{
  PlayerHolds, IsChain-snoc, last_level-snoc, AreOf-snoc,
}

module _ (env : Env) (s : State) (player_id : ℕ) (history : List ProgressEntry) (new_level : Level)
    (updated_by : Address) (milestone_ref : ℕ) where
  abbrev pub entry : ProgressEntry
  entry = new_entry env player_id (get_current_level s player_id) new_level updated_by milestone_ref

  -- The state once the entry and the level are written.
  abbrev pub changed : Hash → List FrontierPeak → State
  changed root ps = set_level player_id new_level (
      recorded env s player_id history (get_current_level s player_id) new_level updated_by
        milestone_ref root ps)

  pub changed-PlayerHolds :
      (root : Hash) (ps : List FrontierPeak)
      → PlayerHolds env.host s player_id history
      → HasHistory env.host
          (recorded env s player_id history
            (get_current_level s player_id)
            new_level
            updated_by
            milestone_ref
            root
            ps)
          player_id
          (history ++ entry ∷ [])
      → PlayerHolds env.host (changed root ps) player_id (history ++ entry ∷ [])
  unfolding set_level get_current_level
  changed-PlayerHolds root ps h r = record {
    stored = record {
      counter = r.counter;
      bounded = r.bounded;
      entries = r.entries;
      pages = r.pages;
      frontier = r.frontier;
      root = r.root;
    };
    chained = IsChain-snoc _ history entry h.chained h.reached;
    reached = rw (==_refl player_id, last_level-snoc);
    own = AreOf-snoc player_id history entry h.own refl;
  }

  pub changed-SameFor :
      (other : ℕ) (root : Hash) (ps : List FrontierPeak)
      → other ≢ player_id
      → SameFor other s (changed root ps)
  unfolding set_level
  changed-SameFor other root ps ne =
      let r =
        recorded-SameFor env s player_id history (get_current_level s player_id) new_level
          updated_by milestone_ref other root ps ne in
      let apart : (player_id == other) ≡ false = ne→== player_id other (λ e. ne (sym e)) in
      record {
        level = rw apart r.level;
        counter = r.counter;
        entries = r.entries;
        legacy = r.legacy;
        pages = r.pages;
        root = r.root;
        frontier = r.frontier;
      }

  -- A recording that returned left the player's longer history, and the others alone.
  pub change-PlayerHolds :
      {t : State}
      → PlayerHolds env.host s player_id history
      → record_progress_entry env player_id
          (get_current_level s player_id)
          new_level
          updated_by
          milestone_ref
          s
        ≡ ok (tt, t)
      → (root : Hash) × (ps : List FrontierPeak) × (set_level player_id new_level t
          ≡ changed root ps)
        × PlayerHolds env.host (changed root ps) player_id (history ++ entry ∷ [])
  change-PlayerHolds h e = elim (dec_lt (length history) u32_max) [
    | no full ↦ cc (
      e,
      record_progress_entry_overflow env s player_id history (get_current_level s player_id)
          new_level updated_by milestone_ref h.stored (omega (arith, h.stored.bounded)),
    )
    | yes room ↦
        let (root, ps, done, stored) =
          record_progress_entry-HasHistory env s player_id history (get_current_level s player_id)
            new_level updated_by milestone_ref h.stored room in
        (root, ps, cc (e, done), changed-PlayerHolds root ps h stored)
  ]
