-- ===== src/Progress/Levels/Returns.antt =====
-- When `advance_level` of contracts/progress/src/lib.rs returns.
use scout_off_contracts.Prelude.{
  ℕ, ◌<◌, ◌≡◌, ap, ◌∙◌, Bool, true, false, not, inl, inr, Option, none, some, List, length,
  if◌then◌else◌,
}
use scout_off_contracts.Prelude.Words.{u32_max}
use scout_off_contracts.Shared.Level.{Level, next}
use scout_off_contracts.Contract.{ok, ◌>>◌, >>=-eq-ok, or_fail-some, fail_if-false}
use scout_off_contracts.Progress.Types.{
  Address, Env, State, Call, ProgressEntry, synced, not_initialized, contract_paused,
  registration_not_configured, already_at_max_level,
}
use scout_off_contracts.Progress.Storage.{
  auth, require_initialized, require_not_paused, get_current_level,
}
use scout_off_contracts.Progress.History.{record_progress_entry}
use scout_off_contracts.Progress.History.Invariant.{HasHistory}
use scout_off_contracts.Progress.History.Record.{recorded, record_progress_entry-HasHistory}
use scout_off_contracts.Progress.Levels.{
  is_address, verification_auth, check_milestone, advance_one_tier, advance_level_authorized,
  advance_level,
}
use scout_off_contracts.Progress.Levels.Advance.{finish, finish_synced, finished}
use scout_off_contracts.Progress.Levels.Entry.{IsLive, Authority}

-- The two ways to pass the authorisation.
module _ (env : Env) (caller : Address) where
  secondary_auth :
      (b : Bool) (o : Option Address) (s : State)
      → b ≡ true
      → env.authorized caller ≡ true
      → (if b then auth env caller else verification_auth env o) s ≡ ok (caller, s)
  secondary_auth b o s e given = rw (e, given)

  primary_auth :
      (b : Bool) (o : Option Address) (s : State) {vc : Address}
      → b ≡ false
      → o ≡ some vc
      → env.authorized vc ≡ true
      → (if b then auth env caller else verification_auth env o) s ≡ ok (vc, s)
  primary_auth b o s e ver given = rw (e, ver, given)

module _ (env : Env) (caller : Address) (player_id milestone_ref : ℕ) (history : List ProgressEntry)
    (s : State) (reg : Address) (level : Level) (stored : HasHistory env.host s player_id history)
    (room : length history < u32_max) (wired : s.registration_contract ≡ some reg)
    (stepped : next (get_current_level s player_id) ≡ some level)
    (agreed : env.set_player_level_reply reg player_id level ≡ synced) where
  advance_one_tier-returns :
      (t : State) × (advance_one_tier env caller player_id milestone_ref s ≡ ok (level, t))
  unfolding advance_one_tier
  advance_one_tier-returns =
      let (root, ps, appended, grown) =
        record_progress_entry-HasHistory env s player_id history (get_current_level s player_id)
          level caller milestone_ref stored room in
      let after =
        recorded env s player_id history (get_current_level s player_id) level caller milestone_ref
          root ps in
      let done =
        finish_synced env caller true none player_id milestone_ref s after reg level agreed in
      let reached =
        or_fail-some wired registration_not_configured _ s
        ∙ or_fail-some stepped already_at_max_level _ s
        ∙ >>=-eq-ok
            (record_progress_entry env player_id (get_current_level s player_id) level caller
              milestone_ref)
            (λ _. finish env caller true none player_id milestone_ref s reg level) appended in
      (finished env caller true none player_id milestone_ref s reg level after, reached ∙ done)

  advance_level_authorized-returns :
      (secondary : Bool) (ver : Option Address)
      → check_milestone env secondary ver player_id milestone_ref s ≡ ok (tt, s)
      → (t : State) × (advance_level_authorized env caller secondary ver player_id milestone_ref s
          ≡ ok (level, t))
  unfolding advance_level_authorized
  advance_level_authorized-returns secondary ver checked =
      let (t, e) = advance_one_tier-returns in
      (
        t,
        >>=-eq-ok (check_milestone env secondary ver player_id milestone_ref)
              (λ _. advance_one_tier env caller player_id milestone_ref) checked
            ∙ e,
      )

  advance_level-eq-authorized :
      IsLive s
      → Authority env s caller
      → advance_level env caller player_id milestone_ref s
        ≡ advance_level_authorized env caller
            (is_address s.scout_access_contract caller)
            s.verification_contract
            player_id
            milestone_ref
            s
  unfolding advance_level require_initialized require_not_paused
  advance_level-eq-authorized live authority =
      fail_if-false live.running contract_paused _ s
      ∙ fail_if-false (ap not live.initialized) not_initialized _ s
      ∙ by_authority authority
    where
      body : Call Level
      body =
          advance_level_authorized env caller (is_address s.scout_access_contract caller)
            s.verification_contract player_id milestone_ref

      guard : Call Address
      guard =
          if is_address s.scout_access_contract caller
          then auth env caller
          else verification_auth env s.verification_contract

      by_authority : Authority env s caller → (guard >> body) s ≡ body s
      by_authority (inl (secondary, given)) =
          >>=-eq-ok guard (λ _. body)
            (secondary_auth env caller _ s.verification_contract s secondary given)
      by_authority (inr (primary, vc, ver, given)) =
          >>=-eq-ok guard (λ _. body)
            (primary_auth env caller _ s.verification_contract s primary ver given)

-- On a live contract, with the authorisation that the caller needs, a valid milestone, a wired
-- registration contract that agrees, a next tier and room for an entry, `advance_level` returns
-- that tier.
pub advance_level-returns :
    (env : Env) (caller : Address) (player_id milestone_ref : ℕ) (history : List ProgressEntry)
    (s : State) (reg : Address) (level : Level)
    → IsLive s
    → Authority env s caller
    → check_milestone env
        (is_address s.scout_access_contract caller)
        s.verification_contract
        player_id
        milestone_ref
        s
      ≡ ok (tt, s)
    → s.registration_contract ≡ some reg
    → next (get_current_level s player_id) ≡ some level
    → env.set_player_level_reply reg player_id level ≡ synced
    → HasHistory env.host s player_id history
    → length history < u32_max
    → (t : State) × (advance_level env caller player_id milestone_ref s ≡ ok (level, t))
advance_level-returns env caller player_id milestone_ref history s reg level live authority checked
      wired stepped agreed stored room =
    let (t, e) =
      advance_level_authorized-returns env caller player_id milestone_ref history s reg level stored
        room wired stepped agreed (is_address s.scout_access_contract caller)
        s.verification_contract checked in
    (
      t,
      advance_level-eq-authorized env caller player_id milestone_ref history s reg level stored room
            wired stepped agreed live authority
          ∙ e,
    )
