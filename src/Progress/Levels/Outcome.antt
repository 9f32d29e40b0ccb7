-- ===== src/Progress/Levels/Outcome.antt =====
-- What the level changes of contracts/progress/src/lib.rs leave behind, key by key.
use scout_off_contracts.Prelude.{
  ℕ, ◌+◌, ◌≤◌, ◌≡◌, ◌≢◌, ◌∙◌, ap, Bool, true, false, Option, or_default, none, some, ◌∷◌, arith,
  refl, inl, inr, Option-cases, subst, sym, Bool-cases, ==_refl, ==_iff, ◌⊎◌,
}
use scout_off_contracts.Shared.Level.{Level, unverified, next, rank, level_eq_iff}
use scout_off_contracts.Contract.{ok}
use scout_off_contracts.Progress.Types.{
  Address, Env, State, Effect, synced, progress_updated, player_level_reset,
  called_set_player_level,
}
use scout_off_contracts.Progress.Storage.{get_current_level}
use scout_off_contracts.Progress.Levels.{
  set_level, is_address, check_milestone, advance_level, advance_level_for_scout,
  reset_player_level,
}
use scout_off_contracts.Progress.Levels.Kept.{
  IsAppended, record_progress_entry-IsAppended, set_level-LevelMoved,
}
use scout_off_contracts.Progress.Levels.Advance.{Advanced}
use scout_off_contracts.Progress.Levels.Entry.{
  IsLive, Authority, advance_level-inv, advance_level_for_scout-inv,
}
use scout_off_contracts.Progress.Levels.Reset.{reset_player_level-WasReset}
use scout_off_contracts.Progress.History.{record_progress_entry}

-- A secondary caller named a milestone from 1 up to the number that the verification contract gave
-- for the player; of the other caller nothing is asked.
abbrev pub KnowsMilestone : Env → Bool → Option Address → ℕ → ℕ → Type 0
KnowsMilestone env false verification_contract player_id milestone_ref = Unit
KnowsMilestone env true verification_contract player_id milestone_ref =
    (ver_addr : Address) × (count : ℕ) × (verification_contract ≡ some ver_addr)
    × (env.milestone_count ver_addr player_id ≡ some count)
    × (1 ≤ milestone_ref)
    × (milestone_ref ≤ count)

check_milestone-KnowsMilestone :
    (env : Env) (secondary : Bool) (verification_contract : Option Address)
    (player_id milestone_ref : ℕ) (s : State)
    → check_milestone env secondary verification_contract player_id milestone_ref s ≡ ok (tt, s)
    → KnowsMilestone env secondary verification_contract player_id milestone_ref
unfolding check_milestone
check_milestone-KnowsMilestone env false verification_contract player_id milestone_ref s e = tt
check_milestone-KnowsMilestone env true none player_id milestone_ref s e = absurd (ground arith)
check_milestone-KnowsMilestone env true (some ver_addr) player_id milestone_ref s e =
    elim (Option-cases (env.milestone_count ver_addr player_id)) [
      | inl missing ↦ absurd (ground (arith, missing))
      | inr (count, counted) ↦
          (ver_addr, count, refl, counted, ground (arith, counted), ground (arith, counted))
    ]

pub KnowsMilestone-check_milestone :
    (env : Env) (secondary : Bool) (verification_contract : Option Address)
    (player_id milestone_ref : ℕ) (s : State)
    → KnowsMilestone env secondary verification_contract player_id milestone_ref
    → check_milestone env secondary verification_contract player_id milestone_ref s ≡ ok (tt, s)
unfolding check_milestone
KnowsMilestone-check_milestone env false verification_contract player_id milestone_ref s known =
    refl
KnowsMilestone-check_milestone env true verification_contract player_id milestone_ref s
      (ver_addr, count, wired, counted, positive, within) =
    ground (arith, wired, counted, positive, within)

next-rank : (a b : Level) → next a ≡ some b → rank b ≡ rank a + 1
unfolding next rank
next-rank a b e = ground arith

-- Who may advance a level: the scout access contract, authorised as the caller and for a milestone that
-- is known, or else whoever has the authorisation of the verification contract.
abbrev pub Admitted : Env → State → Address → ℕ → ℕ → Type 0
Admitted env s caller player_id milestone_ref =
    ((s.scout_access_contract ≡ some caller)
      × (env.authorized caller ≡ true)
      × KnowsMilestone env true s.verification_contract player_id milestone_ref)
    ⊎ ((s.scout_access_contract ≢ some caller)
        × (vc : Address) × (s.verification_contract ≡ some vc)
        × (env.authorized vc ≡ true))

is_address_sound :
    (o : Option Address) (caller : Address) → is_address o caller ≡ true → o ≡ some caller
is_address_sound none caller e = cc e
is_address_sound (some a) caller e = ap some ((==_iff a caller).0 e)

is_address_complete :
    (o : Option Address) (caller : Address) → is_address o caller ≡ false → o ≢ some caller
is_address_complete none caller e same = cc same
is_address_complete (some a) caller e same =
    let mine : a ≡ caller = cc same in cc (e, (==_iff a caller).1 mine)

Authority-Admitted :
    (env : Env) (s : State) (caller player_id milestone_ref : ℕ)
    → Authority env s caller
    → KnowsMilestone env
        (is_address s.scout_access_contract caller)
        s.verification_contract
        player_id
        milestone_ref
    → Admitted env s caller player_id milestone_ref
Authority-Admitted env s caller player_id milestone_ref (inl (secondary, given)) known = inl (
  is_address_sound s.scout_access_contract caller secondary,
  given,
  subst (λ b. KnowsMilestone env b s.verification_contract player_id milestone_ref) secondary known,
)
Authority-Admitted env s caller player_id milestone_ref (inr (primary, vc, ver, given)) known =
    inr (is_address_complete s.scout_access_contract caller primary, vc, ver, given)

-- What the guards of an advance ask for, by the test that the code makes.
pub Admitted-Authority :
    (env : Env) (s : State) (caller player_id milestone_ref : ℕ)
    → Admitted env s caller player_id milestone_ref
    → Authority env s caller
      × KnowsMilestone env
          (is_address s.scout_access_contract caller)
          s.verification_contract
          player_id
          milestone_ref
Admitted-Authority env s caller player_id milestone_ref (inl (mine, given, known)) =
    let secondary : is_address s.scout_access_contract caller ≡ true = rw mine (==_refl caller) in
    (
      inl (secondary, given),
      subst (λ b. KnowsMilestone env b s.verification_contract player_id milestone_ref)
          (sym secondary) known,
    )
Admitted-Authority env s caller player_id milestone_ref (inr (other, vc, ver, given)) =
    elim (Bool-cases (is_address s.scout_access_contract caller)) [
      | inl secondary ↦ absurd (other (is_address_sound s.scout_access_contract caller secondary))
      | inr primary ↦ (
        inr (primary, vc, ver, given),
        subst (λ b. KnowsMilestone env b s.verification_contract player_id milestone_ref)
            (sym primary) tt,
      )
    ]

-- The keys after a change of a player's level: one entry more, the new level, no other level touched,
-- the registration contract agreed to the level, and it was told before the event was emitted.
pub record IsChanged (env : Env) (player_id : ℕ) (level : Level) (updated_by : Address)
    (milestone_ref : ℕ) (event : Effect) (s t : State) : Type 0 where
  pub appended :
      IsAppended env player_id
        (or_default unverified (s.player_level player_id))
        level
        updated_by
        milestone_ref
        s
        t
  pub moved : t.player_level player_id ≡ some level
  pub others : (other : ℕ) → other ≢ player_id → t.player_level other ≡ s.player_level other
  pub reg_contract : Address
  pub wired : s.registration_contract ≡ some reg_contract
  pub agreed : env.set_player_level_reply reg_contract player_id level ≡ synced
  pub emitted : t.effects ≡ event ∷ called_set_player_level reg_contract player_id level ∷ s.effects

module _ (env : Env) (player_id : ℕ) (level : Level) (updated_by : Address) (milestone_ref : ℕ)
    (event : Effect) (reg_contract : Address) {s t after : State} where
  finished-IsChanged :
      s.registration_contract ≡ some reg_contract
      → env.set_player_level_reply reg_contract player_id level ≡ synced
      → record_progress_entry env player_id
          (or_default unverified (s.player_level player_id))
          level
          updated_by
          milestone_ref
          s
        ≡ ok (tt, after)
      → t ≡ record (set_level player_id level after) {
        effects =
            event
            ∷ called_set_player_level reg_contract player_id level
            ∷ (set_level player_id level after).effects;
      }
      → IsChanged env player_id level updated_by milestone_ref event s t
  unfolding set_level get_current_level
  finished-IsChanged wired agreed recorded result =
      let (appended, levels, effects) =
        record_progress_entry-IsAppended env player_id
          (or_default unverified (s.player_level player_id)) level updated_by milestone_ref s after
          recorded in
      let moved = set_level-LevelMoved player_id level s after t _ levels result in
      record {
        appended = record {
          fits = appended.fits;
          counter = ap (λ (x : State). x.history_counter player_id) result ∙ appended.counter;
          entry =
              ap
                (λ (x : State).
                  x.history_entry player_id (or_default 0 (s.history_counter player_id) + 1))
                result
              ∙ appended.entry;
          earlier = λ i ne.
              ap (λ (x : State). x.history_entry player_id i) result ∙ appended.earlier i ne;
        };
        moved = moved.moved;
        others = moved.others;
        reg_contract = reg_contract;
        wired = wired;
        agreed = agreed;
        emitted =
            ap (λ (x : State). x.effects) result
            ∙ ap (λ es. event ∷ called_set_player_level reg_contract player_id level ∷ es) effects;
      }

module _ (env : Env) (caller : Address) (player_id milestone_ref : ℕ) {s t : State}
    {level : Level} where
  pub Advanced-IsChanged :
      {secondary : Bool} {verification_contract : Option Address}
      → Advanced env caller secondary verification_contract player_id milestone_ref s t level
      → IsChanged env player_id level caller milestone_ref
          (progress_updated player_id
            (or_default unverified (s.player_level player_id))
            level
            caller
            milestone_ref)
          s
          t
  unfolding get_current_level
  Advanced-IsChanged a =
      finished-IsChanged env player_id level caller milestone_ref _ a.reg_contract a.wired
        a.synced_level a.appended a.result

  -- An `advance_level` that returned a level was called on an initialised and unpaused contract, with
  -- the authorisation of the scout access contract as the caller or else of the verification contract.
  -- The scout access contract named a milestone from 1 up to the number that the verification contract
  -- knows. The level is the next one, and the keys have changed as `IsChanged` says.
  pub advance_level-IsChanged :
      advance_level env caller player_id milestone_ref s ≡ ok (level, t)
      → IsLive s
        × Admitted env s caller player_id milestone_ref
        × (rank level ≡ rank (or_default unverified (s.player_level player_id)) + 1)
        × IsChanged env player_id level caller milestone_ref
            (progress_updated player_id
              (or_default unverified (s.player_level player_id))
              level
              caller
              milestone_ref)
            s
            t
  unfolding get_current_level
  advance_level-IsChanged e =
      let (live, authority, a) = advance_level-inv env caller player_id milestone_ref e in
      (
        live,
        Authority-Admitted env s caller player_id milestone_ref authority (
            check_milestone-KnowsMilestone env _ s.verification_contract player_id milestone_ref s
              a.checked),
        next-rank _ level a.stepped,
        Advanced-IsChanged a,
      )

  -- An `advance_level_for_scout` that returned a level was called on an initialised and unpaused
  -- contract, with the authorisation of the configured scout access contract, and named a milestone
  -- from 1 up to the number that the verification contract knows. The level is the next one, and the
  -- keys have changed as `IsChanged` says.
  pub advance_level_for_scout-IsChanged :
      advance_level_for_scout env caller player_id milestone_ref s ≡ ok (level, t)
      → IsLive s
        × ((secondary : Address) × (s.scout_access_contract ≡ some secondary)
            × (env.authorized secondary ≡ true))
        × KnowsMilestone env true s.verification_contract player_id milestone_ref
        × (rank level ≡ rank (or_default unverified (s.player_level player_id)) + 1)
        × IsChanged env player_id level caller milestone_ref
            (progress_updated player_id
              (or_default unverified (s.player_level player_id))
              level
              caller
              milestone_ref)
            s
            t
  unfolding get_current_level
  advance_level_for_scout-IsChanged e =
      let (live, authority, a) = advance_level_for_scout-inv env caller player_id milestone_ref e in
      (
        live,
        authority,
        check_milestone-KnowsMilestone env true s.verification_contract player_id milestone_ref s
            a.checked,
        next-rank _ level a.stepped,
        Advanced-IsChanged a,
      )

-- A `reset_player_level` that returned was authorised by the administrator of an initialised and
-- unpaused contract, for a level other than the player's, and the keys have changed as `IsChanged`
-- says, by the administrator and for no milestone.
pub reset_player_level-IsChanged :
    (env : Env) (player_id : ℕ) (target_level : Level) (s t : State)
    → reset_player_level env player_id target_level s ≡ ok (tt, t)
    → IsLive s
      × ((admin : Address) × (s.admin ≡ some admin)
          × (env.authorized admin ≡ true)
          × IsChanged env player_id target_level admin 0
              (player_level_reset admin player_id
                (or_default unverified (s.player_level player_id))
                target_level)
              s
              t)
      × (or_default unverified (s.player_level player_id) ≢ target_level)
unfolding get_current_level
reset_player_level-IsChanged env player_id target_level s t e =
    let r = reset_player_level-WasReset env player_id target_level s t e in
    (
      r.live,
      (
        r.admin,
        r.administered,
        r.authorised,
        finished-IsChanged env player_id target_level r.admin 0 _ r.reg_contract r.wired
            r.synced_level r.appended r.result,
      ),
      λ same. cc (r.moved, (level_eq_iff _ _).1 same),
    )
