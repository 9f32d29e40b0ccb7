-- ===== src/Progress/Levels/Frame.antt =====
-- What is kept for a player decides what holds of the player: the frame rules of the contract.
use scout_off_contracts.Prelude.{ℕ, suc, ◌≡◌, refl, ◌∙◌, ap, subst, sym, List}
use scout_off_contracts.Progress.Types.{Host, State, Effect, ProgressEntry}
use scout_off_contracts.Progress.Storage.{get_current_level}
use scout_off_contracts.Progress.History.Invariant.{
  HasHistory, PageHolds, FrontierHolds, RootHolds, SameFor,
}
use scout_off_contracts.Progress.Levels.Chain.{PlayerHolds}

module _ {player_id : ℕ} where
  pub SameFor-refl : (s : State) → SameFor player_id s s
  SameFor-refl s = record {
    level = refl;
    counter = refl;
    entries = refl;
    legacy = refl;
    pages = refl;
    root = refl;
    frontier = refl;
  }

  pub SameFor-trans :
      {s t u : State} → SameFor player_id s t → SameFor player_id t u → SameFor player_id s u
  SameFor-trans a b = record {
    level = b.level ∙ a.level;
    counter = b.counter ∙ a.counter;
    entries = b.entries ∙ a.entries;
    legacy = b.legacy ∙ a.legacy;
    pages = b.pages ∙ a.pages;
    root = b.root ∙ a.root;
    frontier = b.frontier ∙ a.frontier;
  }

  -- Events and calls are kept for no player.
  pub SameFor-effects :
      (s t : State) (effects : List Effect)
      → t ≡ record s { effects = effects }
      → SameFor player_id s t
  SameFor-effects s t effects e = record {
    level = ap (λ (u : State). u.player_level player_id) e;
    counter = ap (λ (u : State). u.history_counter player_id) e;
    entries = ap (λ (u : State). u.history_entry player_id) e;
    legacy = ap (λ (u : State). u.history_vec player_id) e;
    pages = ap (λ (u : State). u.history_page player_id) e;
    root = ap (λ (u : State). u.history_root player_id) e;
    frontier = ap (λ (u : State). u.history_frontier player_id) e;
  }

module _ {host : Host} {player_id : ℕ} {history : List ProgressEntry} {s t : State} where
  pub HasHistory-SameFor :
      SameFor player_id s t
      → HasHistory host s player_id history
      → HasHistory host t player_id history
  HasHistory-SameFor same h = record {
    counter = rw same.counter h.counter;
    bounded = h.bounded;
    entries = λ i. ap (λ (f : ℕ → _). f (suc i)) same.entries ∙ h.entries i;
    pages = λ p. subst (λ f. PageHolds history p (f p)) (sym same.pages) (h.pages p);
    frontier = subst (FrontierHolds host history) (sym same.frontier) h.frontier;
    root = subst (RootHolds host history) (sym same.root) h.root;
  }

  pub PlayerHolds-SameFor :
      SameFor player_id s t
      → PlayerHolds host s player_id history
      → PlayerHolds host t player_id history
  unfolding get_current_level
  PlayerHolds-SameFor same h = record {
    stored = HasHistory-SameFor same h.stored;
    chained = h.chained;
    reached = rw same.level h.reached;
    own = h.own;
  }
