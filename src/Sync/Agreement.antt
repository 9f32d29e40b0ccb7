-- ===== src/Sync/Agreement.antt =====
-- The levels that the two contracts hold, across the calls that join them.
use native.Mathlib.Decide.{ℕ_discrete}
use scout_off_contracts.Prelude.{ℕ, ◌≡◌, refl, sym, subst, true, List, ◌∷◌, or_default, is_some}
use scout_off_contracts.Shared.Level.{Level, unverified}
use scout_off_contracts.Contract.{Outcome, ok, err, trap}
use scout_off_contracts.Progress.Types as progress
use scout_off_contracts.Progress.Levels.Outcome.{
  IsChanged, advance_level-IsChanged, advance_level_for_scout-IsChanged,
  reset_player_level-IsChanged,
}
use scout_off_contracts.Registration.Types as registration
use scout_off_contracts.Sync.{
  joined, delivered, commit_both, begun, advance_both, advance_for_scout_both, reset_both,
}
use scout_off_contracts.Sync.Commits.{IsChanged-IsLevelled}

-- For every registered player, the progress contract's level is the one that the registration contract
-- stores.
abbrev pub LevelsAgree : progress.State × registration.State → Type 0
LevelsAgree (p, r) =
    (id : ℕ)
    → is_some (r.player id) ≡ true
    → or_default unverified (p.player_level id) ≡ or_default unverified (r.player_level id)

-- A change of a level in the progress contract, with its call of the registration contract.
changed-LevelsAgree :
    (env : progress.Env) (reg_env : registration.Env) (p p' : progress.State)
    (r : registration.State) (player_id : ℕ) (level : Level) (updated_by milestone_ref : ℕ)
    (event : progress.Effect)
    → ((es : List progress.Effect) → delivered reg_env (event ∷ es) r ≡ delivered reg_env es r)
    → LevelsAgree (p, r)
    → IsChanged (joined env reg_env r) player_id level updated_by milestone_ref event (begun p) p'
    → LevelsAgree (p', delivered reg_env p'.effects r)
changed-LevelsAgree env reg_env p p' r player_id level updated_by milestone_ref event over agree c
      id there =
    let w =
      IsChanged-IsLevelled env reg_env p p' r player_id level updated_by milestone_ref event over
        c in
    let r' = delivered reg_env p'.effects r in
    elim (ℕ_discrete id player_id) [
      | yes same ↦
          subst
            (λ i.
              or_default unverified (p'.player_level i) ≡ or_default unverified (r'.player_level i))
            (sym same) (rw (c.moved, w.moved))
      | no ne ↦
          let old = agree id (subst (λ o. is_some o ≡ true) (w.other_players id ne) there) in
          rw (c.others id ne, w.other_levels id ne) old
    ]

commit_both-LevelsAgree :
    {A : Type 0} (reg_env : registration.Env) (p : progress.State) (r : registration.State)
    (o : Outcome progress.ProgressError (A × progress.State))
    → LevelsAgree (p, r)
    → ((a : A) (p' : progress.State)
        → o ≡ ok (a, p')
        → LevelsAgree (p', delivered reg_env p'.effects r))
    → LevelsAgree (commit_both reg_env o (p, r))
commit_both-LevelsAgree reg_env p r (ok (a, p')) agree k = k a p' refl
commit_both-LevelsAgree reg_env p r (err e) agree k = agree
commit_both-LevelsAgree reg_env p r trap agree k = agree

module _ (env : progress.Env) (reg_env : registration.Env) (p : progress.State)
    (r : registration.State) (agree : LevelsAgree (p, r)) where
  pub advance_both-LevelsAgree :
      (caller player_id milestone_ref : ℕ)
      → LevelsAgree (advance_both env reg_env caller player_id milestone_ref (p, r))
  unfolding advance_both delivered
  advance_both-LevelsAgree caller player_id milestone_ref =
      commit_both-LevelsAgree reg_env p r _ agree λ level p' e.
        (let (live, admitted, stepped, c) =
            advance_level-IsChanged (joined env reg_env r) caller player_id milestone_ref e in
          changed-LevelsAgree env reg_env p p' r player_id level caller milestone_ref _ (λ es. refl)
            agree c)

  pub advance_for_scout_both-LevelsAgree :
      (scout player_id milestone_ref : ℕ)
      → LevelsAgree (advance_for_scout_both env reg_env scout player_id milestone_ref (p, r))
  unfolding advance_for_scout_both delivered
  advance_for_scout_both-LevelsAgree scout player_id milestone_ref =
      commit_both-LevelsAgree reg_env p r _ agree λ level p' e.
        (let (live, authority, known, stepped, c) =
            advance_level_for_scout-IsChanged (joined env reg_env r) scout player_id milestone_ref
              e in
          changed-LevelsAgree env reg_env p p' r player_id level scout milestone_ref _ (λ es. refl)
            agree c)

  pub reset_both-LevelsAgree :
      (player_id : ℕ) (target_level : Level)
      → LevelsAgree (reset_both env reg_env player_id target_level (p, r))
  unfolding reset_both delivered
  reset_both-LevelsAgree player_id target_level =
      commit_both-LevelsAgree reg_env p r _ agree λ u p' e.
        (let (live, (admin, appointed, given, c), moved) =
            reset_player_level-IsChanged (joined env reg_env r) player_id target_level (begun p) p'
              e in
          changed-LevelsAgree env reg_env p p' r player_id target_level admin 0 _ (λ es. refl) agree
            c)
