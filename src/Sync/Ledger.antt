-- ===== src/Sync/Ledger.antt =====
-- Sequences of the calls that join contracts/progress and contracts/registration.
use scout_off_contracts.Prelude.{ℕ, List, [], ◌∷◌}
use scout_off_contracts.Shared.Level.{Level}
use scout_off_contracts.Progress.Types as progress
use scout_off_contracts.Registration.Types as registration
use scout_off_contracts.Sync.{advance_both, advance_for_scout_both, reset_both}
use scout_off_contracts.Sync.Agreement.{
  LevelsAgree, advance_both-LevelsAgree, advance_for_scout_both-LevelsAgree, reset_both-LevelsAgree,
}

-- The calls that change a level, with their arguments.
pub data LevelCall : Type 0 where
  advance_call : ℕ → ℕ → ℕ → LevelCall
  advance_for_scout_call : ℕ → ℕ → ℕ → LevelCall
  reset_call : ℕ → Level → LevelCall

unfoldable pub serve_both :
    progress.Env
    → registration.Env
    → LevelCall
    → progress.State × registration.State
    → progress.State × registration.State
serve_both env reg_env (advance_call caller player_id milestone_ref) both =
    advance_both env reg_env caller player_id milestone_ref both
serve_both env reg_env (advance_for_scout_call scout player_id milestone_ref) both =
    advance_for_scout_both env reg_env scout player_id milestone_ref both
serve_both env reg_env (reset_call player_id target_level) both =
    reset_both env reg_env player_id target_level both

unfoldable pub run_both :
    List (progress.Env × registration.Env × LevelCall)
    → progress.State × registration.State
    → progress.State × registration.State
run_both [] both = both
run_both ((env, reg_env, call) ∷ calls) both = run_both calls (serve_both env reg_env call both)

serve_both-LevelsAgree :
    (env : progress.Env) (reg_env : registration.Env) (call : LevelCall)
    (both : progress.State × registration.State)
    → LevelsAgree both
    → LevelsAgree (serve_both env reg_env call both)
unfolding serve_both
serve_both-LevelsAgree env reg_env (advance_call caller player_id milestone_ref) (p, r) agree =
    advance_both-LevelsAgree env reg_env p r agree caller player_id milestone_ref
serve_both-LevelsAgree env reg_env (advance_for_scout_call scout player_id milestone_ref) (p, r)
      agree =
    advance_for_scout_both-LevelsAgree env reg_env p r agree scout player_id milestone_ref
serve_both-LevelsAgree env reg_env (reset_call player_id target_level) (p, r) agree =
    reset_both-LevelsAgree env reg_env p r agree player_id target_level

-- If progress and registration have the same level for each registered player, they still have after
-- any sequence of calls that advance or reset a level, whether each returns or fails.
pub run_both-LevelsAgree :
    (calls : List (progress.Env × registration.Env × LevelCall))
    (both : progress.State × registration.State)
    → LevelsAgree both
    → LevelsAgree (run_both calls both)
unfolding run_both
run_both-LevelsAgree [] both agree = agree
run_both-LevelsAgree ((env, reg_env, call) ∷ calls) both agree =
    run_both-LevelsAgree calls (serve_both env reg_env call both)
      (serve_both-LevelsAgree env reg_env call both agree)
