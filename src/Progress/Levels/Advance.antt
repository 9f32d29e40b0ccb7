-- ===== src/Progress/Levels/Advance.antt =====
-- The part that `advance_level` and `advance_level_for_scout` of contracts/progress/src/lib.rs share.
use scout_off_contracts.Prelude.{
  ℕ, ◌≡◌, ◌≢◌, refl, sym, subst, Bool, true, false, Option, some, List, [], ◌∷◌, ◌++◌, arith,
}
use scout_off_contracts.Shared.Level.{Level, next}
use scout_off_contracts.Contract.{Outcome, ok, modify, pure, ◌>>◌, >>=-inv, or_fail-inv}
use scout_off_contracts.Progress.Types.{
  Address, Env, State, ProgressError, ProgressEntry, progress_updated, called_set_player_level,
  SyncReply, synced, player_unknown, other_failure, registration_not_configured,
  already_at_max_level,
}
use scout_off_contracts.Progress.Storage.{get_current_level, emit}
use scout_off_contracts.Progress.History.{record_progress_entry}
use scout_off_contracts.Progress.History.Invariant.{SameFor}
use scout_off_contracts.Progress.Levels.{
  set_level, sync_registration, check_milestone, advance_one_tier, advance_level_authorized,
}
use scout_off_contracts.Progress.Levels.Chain.{PlayerHolds}
use scout_off_contracts.Progress.Levels.Frame.{SameFor-effects, SameFor-trans, PlayerHolds-SameFor}
use scout_off_contracts.Progress.Levels.Change.{entry, change-PlayerHolds, changed-SameFor}

module _ (env : Env) (caller : Address) (caller_is_secondary : Bool)
    (verification_contract : Option Address) (player_id milestone_ref : ℕ) where
  check_milestone_same :
      {s t : State} {x : Unit {0}}
      → check_milestone env caller_is_secondary verification_contract player_id milestone_ref s
        ≡ ok (x, t)
      → t ≡ s
  check_milestone_same e = same caller_is_secondary e
    where
      same :
          (b : Bool) {s t : State} {x : Unit {0}}
          → check_milestone env b verification_contract player_id milestone_ref s ≡ ok (x, t)
          → t ≡ s
      same false e = unfold check_milestone in ground arith
      same true e = unfold check_milestone in ground arith

  -- The state that a synchronised finish leaves.
  abbrev pub finished : State → Address → Level → State → State
  finished s reg level after = record (set_level player_id level after) {
    effects =
        progress_updated player_id (get_current_level s player_id) level caller milestone_ref
        ∷ called_set_player_level reg player_id level
        ∷ (set_level player_id level after).effects;
  }

  -- What an advance that returned went through.
  pub record Advanced (s t : State) (level : Level) : Type 0 where
    pub checked :
        check_milestone env caller_is_secondary verification_contract player_id milestone_ref s
        ≡ ok (tt, s)
    pub reg_contract : Address
    pub wired : s.registration_contract ≡ some reg_contract
    pub stepped : next (get_current_level s player_id) ≡ some level
    pub after : State
    pub appended :
        record_progress_entry env player_id
          (get_current_level s player_id)
          level
          caller
          milestone_ref
          s
        ≡ ok (tt, after)
    pub synced_level : env.set_player_level_reply reg_contract player_id level ≡ synced
    pub result : t ≡ finished s reg_contract level after

  -- The part after the append.
  abbrev pub finish : State → Address → Level → State → Outcome ProgressError (Level × State)
  finish s reg level =
      modify (set_level player_id level)
      >> (sync_registration env reg player_id level
          >> (emit (
                progress_updated player_id (get_current_level s player_id) level caller
                  milestone_ref)
              >> pure level))

  pub finish_synced :
      (s after : State) (reg : Address) (level : Level)
      → env.set_player_level_reply reg player_id level ≡ synced
      → finish s reg level after ≡ ok (level, finished s reg level after)
  unfolding sync_registration
  finish_synced s after reg level h = rw (h, sync_registration)

  finish-inv :
      (s t after : State) (reg : Address) (level level' : Level)
      → finish s reg level after ≡ ok (level', t)
      → (env.set_player_level_reply reg player_id level ≡ synced)
        × (level' ≡ level)
        × (t ≡ finished s reg level after)
  finish-inv s t after reg level level' e =
      split (env.set_player_level_reply reg player_id level) refl
    where
      split :
          (r : SyncReply)
          → env.set_player_level_reply reg player_id level ≡ r
          → (env.set_player_level_reply reg player_id level ≡ synced)
            × (level' ≡ level)
            × (t ≡ finished s reg level after)
      split synced h =
          let done = finish_synced s after reg level h in (h, cc (done, e), cc (done, e))
      split player_unknown h = unfold sync_registration in ground arith
      split other_failure h = unfold sync_registration in ground arith

  finish-Advanced :
      (s t after : State) (reg : Address) (level level' : Level)
      → check_milestone env caller_is_secondary verification_contract player_id milestone_ref s
        ≡ ok (tt, s)
      → s.registration_contract ≡ some reg
      → next (get_current_level s player_id) ≡ some level
      → record_progress_entry env player_id
          (get_current_level s player_id)
          level
          caller
          milestone_ref
          s
        ≡ ok (tt, after)
      → finish s reg level after ≡ ok (level', t)
      → Advanced s t level'
  finish-Advanced s t after reg level level' checked wired stepped appended e =
      let (agreed, same, result) = finish-inv s t after reg level level' e in
      subst (Advanced s t) (sym same) (record {
        checked = checked;
        reg_contract = reg;
        wired = wired;
        stepped = stepped;
        after = after;
        appended = appended;
        synced_level = agreed;
        result = result;
      })

  advance_one_tier-Advanced :
      (s t : State) (level : Level)
      → check_milestone env caller_is_secondary verification_contract player_id milestone_ref s
        ≡ ok (tt, s)
      → advance_one_tier env caller player_id milestone_ref s ≡ ok (level, t)
      → Advanced s t level
  unfolding advance_one_tier
  advance_one_tier-Advanced s t level checked e =
      let (reg, wired, e₁) = or_fail-inv s.registration_contract registration_not_configured _ e in
      let (new, stepped, e₂) =
        or_fail-inv (next (get_current_level s player_id)) already_at_max_level _ e₁ in
      let (u, after, appended, e₃) =
        >>=-inv
          (record_progress_entry env player_id (get_current_level s player_id) new caller
            milestone_ref)
          (λ _. finish s reg new) e₂ in
      finish-Advanced s t after reg new level checked wired stepped appended e₃

  -- An advance that returned passed every guard, stepped to the next tier, appended one entry, had
  -- the registration contract agree, and emitted its event last.
  pub advance_level_authorized-Advanced :
      (s t : State) (level : Level)
      → advance_level_authorized env caller caller_is_secondary verification_contract player_id
          milestone_ref s
        ≡ ok (level, t)
      → Advanced s t level
  unfolding advance_level_authorized
  advance_level_authorized-Advanced s t level e =
      let (x, s₁, checked, e₁) =
        >>=-inv
          (check_milestone env caller_is_secondary verification_contract player_id milestone_ref)
          (λ _. advance_one_tier env caller player_id milestone_ref) e in
      let same : s₁ ≡ s = check_milestone_same checked in
      advance_one_tier-Advanced s t level (rw same at checked) (rw same at e₁)

module _ (env : Env) (caller : Address) (caller_is_secondary : Bool)
    (verification_contract : Option Address) (player_id milestone_ref : ℕ)
    (history : List ProgressEntry) {s t : State} {level : Level} where
  -- What holds of the player after an advance, and of every other player.
  pub Advanced-PlayerHolds :
      PlayerHolds env.host s player_id history
      → Advanced env caller caller_is_secondary verification_contract player_id milestone_ref s t
          level
      → PlayerHolds env.host t player_id
          (history ++ entry env s player_id history level caller milestone_ref ∷ [])
        × ((other : ℕ) → other ≢ player_id → SameFor other s t)
  Advanced-PlayerHolds h a =
      let (root, ps, same, holds) =
        change-PlayerHolds env s player_id history level caller milestone_ref h a.appended in
      let after = set_level player_id level a.after in
      let framed = λ (other : ℕ).
        subst (λ u. SameFor other u t) same
          (SameFor-effects {player_id = other} after t _ a.result) in
      (
        PlayerHolds-SameFor (framed player_id) holds,
        λ other ne.
            SameFor-trans
              (changed-SameFor env s player_id history level caller milestone_ref other root ps ne)
              (framed other),
      )
