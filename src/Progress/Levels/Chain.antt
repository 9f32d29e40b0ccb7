-- ===== src/Progress/Levels/Chain.antt =====
-- A player's record: the stored history, its chain of levels, and the current level at its end.
use scout_off_contracts.Prelude.{ℕ, ◌≡◌, refl, List, [], ◌∷◌, ◌++◌}
use scout_off_contracts.Shared.Level.{Level, unverified}
use scout_off_contracts.Progress.Types.{Host, State, ProgressEntry}
use scout_off_contracts.Progress.Storage.{get_current_level}
use scout_off_contracts.Progress.History.Invariant.{HasHistory}

-- Each entry starts at the level that the one before it reached.
abbrev pub IsChain : Level → List ProgressEntry → Type 0
IsChain level [] = Unit
IsChain level (e ∷ es) = (e.old_level ≡ level) × IsChain e.new_level es

abbrev pub last_level : Level → List ProgressEntry → Level
last_level level [] = level
last_level level (e ∷ es) = last_level e.new_level es

-- Every entry names the player.
abbrev pub AreOf : ℕ → List ProgressEntry → Type 0
AreOf player_id [] = Unit
AreOf player_id (e ∷ es) = (e.player_id ≡ player_id) × AreOf player_id es

pub record PlayerHolds (host : Host) (s : State) (player_id : ℕ) (history : List ProgressEntry)
    : Type 0 where
  pub stored : HasHistory host s player_id history
  pub chained : IsChain unverified history
  pub reached : get_current_level s player_id ≡ last_level unverified history
  pub own : AreOf player_id history

pub IsChain-snoc :
    (level : Level) (es : List ProgressEntry) (e : ProgressEntry)
    → IsChain level es
    → e.old_level ≡ last_level level es
    → IsChain level (es ++ e ∷ [])
IsChain-snoc level [] e h q = (q, tt)
IsChain-snoc level (x ∷ es) e h q = (h.0, IsChain-snoc x.new_level es e h.1 q)

pub last_level-snoc :
    (level : Level) (es : List ProgressEntry) (e : ProgressEntry)
    → last_level level (es ++ e ∷ []) ≡ e.new_level
last_level-snoc level [] e = refl
last_level-snoc level (x ∷ es) e = last_level-snoc x.new_level es e

pub AreOf-snoc :
    (player_id : ℕ) (es : List ProgressEntry) (e : ProgressEntry)
    → AreOf player_id es
    → e.player_id ≡ player_id
    → AreOf player_id (es ++ e ∷ [])
AreOf-snoc player_id [] e h q = (q, tt)
AreOf-snoc player_id (x ∷ es) e h q = (h.0, AreOf-snoc player_id es e h.1 q)
