-- ===== src/Sync.antt =====
-- The call that joins the two contracts: `advance_level`, `advance_level_for_scout` and
-- `reset_player_level` of contracts/progress/src/lib.rs call `set_player_level` of
-- contracts/registration/src/lib.rs.
pub mod Commits
pub mod Agreement
pub mod Ledger
mod Tests
use scout_off_contracts.Prelude.{ℕ, Bool, true, false, List, [], ◌∷◌, if◌then◌else◌}
use scout_off_contracts.Shared.Level.{Level}
use scout_off_contracts.Contract.{Outcome, ok, err, trap}
use scout_off_contracts.Progress.Types as progress
use scout_off_contracts.Progress.Levels.{advance_level, advance_level_for_scout, reset_player_level}
use scout_off_contracts.Registration.Types as registration
use scout_off_contracts.Registration.Players.{set_player_level}

abbrev pub is_player_not_found : registration.ScoutChainError → Bool
is_player_not_found e = elim e [ registration.player_not_found ↦ true | _ ↦ false ]

-- What `try_set_player_level` sees of the call.
abbrev pub reply_of :
    Outcome registration.ScoutChainError (Unit {0} × registration.State) → progress.SyncReply
reply_of (ok x) = progress.synced
reply_of (err e) = if is_player_not_found e then progress.player_unknown else progress.other_failure
reply_of trap = progress.other_failure

-- The progress contract's environment in which the registration contract answers.
abbrev pub joined : progress.Env → registration.Env → registration.State → progress.Env
joined env reg_env r = record env {
  set_player_level_reply =
      λ reg player_id level. reply_of (set_player_level reg_env player_id level r);
}

-- The registration contract after the calls in a list of the progress contract's effects, the newest
-- first. The host keeps what a call did if it returned, and rolls it back otherwise.
unfoldable pub delivered :
    registration.Env → List progress.Effect → registration.State → registration.State
delivered reg_env [] r = r
delivered reg_env (progress.called_set_player_level reg player_id level ∷ earlier) r =
    let s = delivered reg_env earlier r in
    elim (set_player_level reg_env player_id level s) [ ok (u, t) ↦ t | err e ↦ s | trap ↦ s ]
delivered reg_env (event ∷ earlier) r = delivered reg_env earlier r

-- What the host commits after a call of the progress contract, whose effects it began without: if it
-- returned, its state and what its own calls did to the registration contract, and otherwise nothing.
abbrev pub commit_both :
    {A : Type 0}
    → registration.Env
    → Outcome progress.ProgressError (A × progress.State)
    → progress.State × registration.State
    → progress.State × registration.State
commit_both reg_env (ok (a, p)) (p₀, r₀) = (p, delivered reg_env p.effects r₀)
commit_both reg_env (err e) both = both
commit_both reg_env trap both = both

-- A state at the beginning of a transaction.
abbrev pub begun : progress.State → progress.State
begun p = record p { effects = [] }

unfoldable pub advance_both :
    progress.Env
    → registration.Env
    → ℕ
    → ℕ
    → ℕ
    → progress.State × registration.State
    → progress.State × registration.State
advance_both env reg_env caller player_id milestone_ref (p, r) =
    commit_both reg_env
      (advance_level (joined env reg_env r) caller player_id milestone_ref (begun p)) (p, r)

unfoldable pub advance_for_scout_both :
    progress.Env
    → registration.Env
    → ℕ
    → ℕ
    → ℕ
    → progress.State × registration.State
    → progress.State × registration.State
advance_for_scout_both env reg_env scout player_id milestone_ref (p, r) =
    commit_both reg_env
      (advance_level_for_scout (joined env reg_env r) scout player_id milestone_ref (begun p))
      (p, r)

unfoldable pub reset_both :
    progress.Env
    → registration.Env
    → ℕ
    → Level
    → progress.State × registration.State
    → progress.State × registration.State
reset_both env reg_env player_id target_level (p, r) =
    commit_both reg_env (reset_player_level (joined env reg_env r) player_id target_level (begun p))
      (p, r)
