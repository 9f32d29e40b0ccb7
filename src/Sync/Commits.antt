-- ===== src/Sync/Commits.antt =====
-- What the calls that join contracts/progress and contracts/registration commit.
use scout_off_contracts.Prelude.{
  ℕ, ◌<◌, ◌≡◌, refl, ap, ◌∙◌, true, some, List, [], ◌∷◌, or_default, length, arith, Bool-cases, inl,
  inr,
}
use scout_off_contracts.Prelude.Words.{u32_max}
use scout_off_contracts.Shared.Level.{Level, unverified, next}
use scout_off_contracts.Shared.Types.{StoredPlayerProfile}
use scout_off_contracts.Contract.{Outcome, ok, err, trap}
use scout_off_contracts.Progress.Types as progress
use scout_off_contracts.Progress.Storage.{get_current_level}
use scout_off_contracts.Progress.History.Invariant.{HasHistory}
use scout_off_contracts.Progress.Levels.{advance_level}
use scout_off_contracts.Progress.Levels.Frame.{HasHistory-SameFor, SameFor-effects}
use scout_off_contracts.Progress.Levels.Entry.{IsLive}
use scout_off_contracts.Progress.Levels.Outcome.{
  IsChanged, Admitted, Admitted-Authority, KnowsMilestone-check_milestone, advance_level-IsChanged,
}
use scout_off_contracts.Progress.Levels.Returns.{advance_level-returns}
use scout_off_contracts.Registration.Types as registration
use scout_off_contracts.Registration.Storage.{load_stored_player}
use scout_off_contracts.Registration.Players.{set_player_level}
use scout_off_contracts.Registration.Levelled.{IsLevelled, set_player_level-IsLevelled}
use scout_off_contracts.Sync.{
  is_player_not_found, reply_of, joined, delivered, commit_both, begun, advance_both,
}

-- A level that was reported as synchronised has been stored.
reply_of-synced :
    (o : Outcome registration.ScoutChainError (Unit {0} × registration.State))
    → reply_of o ≡ progress.synced
    → (r : registration.State) × (o ≡ ok (tt, r))
reply_of-synced (ok (u, r)) e = (r, refl)
reply_of-synced (err x) e = elim (Bool-cases (is_player_not_found x)) [
  | inl unknown ↦ absurd (ground (arith, unknown))
  | inr other ↦ absurd (ground (arith, other))
]
reply_of-synced trap e = cc e

delivered_one :
    (reg_env : registration.Env) (reg player_id : ℕ) (level : Level) (r r' : registration.State)
    → set_player_level reg_env player_id level r ≡ ok (tt, r')
    → delivered reg_env (progress.called_set_player_level reg player_id level ∷ []) r ≡ r'
unfolding delivered
delivered_one reg_env reg player_id level r r' stored = rw (delivered, stored)

-- A change of a level that began without effects, and its call of the registration contract.
pub IsChanged-IsLevelled :
    (env : progress.Env) (reg_env : registration.Env) (p p' : progress.State)
    (r : registration.State) (player_id : ℕ) (level : Level) (updated_by milestone_ref : ℕ)
    (event : progress.Effect)
    → ((es : List progress.Effect) → delivered reg_env (event ∷ es) r ≡ delivered reg_env es r)
    → IsChanged (joined env reg_env r) player_id level updated_by milestone_ref event (begun p) p'
    → IsLevelled reg_env player_id level r (delivered reg_env p'.effects r)
unfolding delivered
IsChanged-IsLevelled env reg_env p p' r player_id level updated_by milestone_ref event over c =
    let (r', stored) = reply_of-synced (set_player_level reg_env player_id level r) c.agreed in
    let same : delivered reg_env p'.effects r ≡ r' =
      ap (λ es. delivered reg_env es r) c.emitted
      ∙ (over _ ∙ delivered_one reg_env c.reg_contract player_id level r r' stored) in
    rw same (set_player_level-IsLevelled reg_env player_id level r r' stored)

commit_both-ok :
    {A : Type 0} (reg_env : registration.Env)
    (o : Outcome progress.ProgressError (A × progress.State)) (a : A) (p p' : progress.State)
    (r : registration.State)
    → o ≡ ok (a, p')
    → commit_both reg_env o (p, r) ≡ (p', delivered reg_env p'.effects r)
commit_both-ok reg_env o a p p' r e = rw e

-- If `advance_level` returned a level over the registration contract as it answers, both contracts
-- commit: progress stores that level, and registration was called with the authorisation that it wants,
-- knows the player, and stores that level and the new time in the profile, and no other player's level
-- or profile changed there.
pub advance_both-commits :
    (env : progress.Env) (reg_env : registration.Env) (caller player_id milestone_ref : ℕ)
    (p p' : progress.State) (r : registration.State) (level : Level)
    → advance_level (joined env reg_env r) caller player_id milestone_ref (begun p) ≡ ok (level, p')
    → (r' : registration.State) × (advance_both env reg_env caller player_id milestone_ref (p, r)
        ≡ (p', r'))
      × (p'.player_level player_id ≡ some level)
      × IsLevelled reg_env player_id level r r'
unfolding advance_both delivered
advance_both-commits env reg_env caller player_id milestone_ref p p' r level e =
    let (live, admitted, stepped, c) =
      advance_level-IsChanged (joined env reg_env r) caller player_id milestone_ref e in
    (
      delivered reg_env p'.effects r,
      commit_both-ok reg_env _ level p p' r e,
      c.moved,
      IsChanged-IsLevelled env reg_env p p' r player_id level caller milestone_ref _ (λ es. refl) c,
    )

-- The registration contract answers as the progress contract relies on.
set_player_level-synced :
    (reg_env : registration.Env) (player_id : ℕ) (level : Level) (r : registration.State)
    (caller : ℕ) (stored : StoredPlayerProfile)
    → r.progress_contract ≡ some caller
    → reg_env.authorized caller ≡ true
    → r.player player_id ≡ some stored
    → reply_of (set_player_level reg_env player_id level r) ≡ progress.synced
unfolding set_player_level load_stored_player
set_player_level-synced reg_env player_id level r caller stored configured authorized found =
    ground (arith, configured, authorized, found)

-- On an initialised and unpaused progress contract, for a caller that `Admitted` describes, with a wired
-- registration contract, a next level and a stored history with room for an entry; and in the
-- registration contract, for a stored player, with the authorisation of the configured progress
-- contract: `advance_level` succeeds across both, and both then store the next level.
pub advance_both-returns :
    (env : progress.Env) (reg_env : registration.Env) (caller player_id milestone_ref : ℕ)
    (p : progress.State) (r : registration.State) (level : Level)
    (history : List progress.ProgressEntry) (reg peer : ℕ) (stored : StoredPlayerProfile)
    → IsLive p
    → Admitted env p caller player_id milestone_ref
    → p.registration_contract ≡ some reg
    → next (or_default unverified (p.player_level player_id)) ≡ some level
    → HasHistory env.host p player_id history
    → length history < u32_max
    → r.progress_contract ≡ some peer
    → reg_env.authorized peer ≡ true
    → r.player player_id ≡ some stored
    → (p' : progress.State) × (r' : registration.State) × (advance_both env reg_env caller player_id
          milestone_ref
          (p, r)
        ≡ (p', r'))
      × (p'.player_level player_id ≡ some level)
      × (r'.player_level player_id ≡ some level)
unfolding get_current_level
advance_both-returns env reg_env caller player_id milestone_ref p r level history reg peer stored
      live admitted wired stepped holds room configured authorized found =
    let (authority, known) =
      Admitted-Authority (joined env reg_env r) (begun p) caller player_id milestone_ref admitted in
    let (p', e) =
      advance_level-returns (joined env reg_env r) caller player_id milestone_ref history (begun p)
        reg level (record { running = live.running; initialized = live.initialized }) authority
        (KnowsMilestone-check_milestone (joined env reg_env r) _ p.verification_contract player_id
          milestone_ref (begun p) known)
        wired stepped
        (set_player_level-synced reg_env player_id level r peer stored configured authorized found)
        (HasHistory-SameFor (SameFor-effects p (begun p) [] refl) holds) room in
    let (r', committed, here, there) =
      advance_both-commits env reg_env caller player_id milestone_ref p p' r level e in
    (p', r', committed, here, there.moved)
