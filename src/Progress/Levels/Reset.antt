-- ===== src/Progress/Levels/Reset.antt =====
-- `reset_player_level` of contracts/progress/src/lib.rs.
use scout_off_contracts.Prelude.{
  ℕ, ◌≡◌, ◌≢◌, refl, ap, subst, Bool, true, false, Option, none, some, List, [], ◌∷◌, ◌++◌, arith,
  inl, inr, Bool-cases,
}
use scout_off_contracts.Shared.Level.{Level, level_eq}
use scout_off_contracts.Shared.Admin.{require_admin}
use scout_off_contracts.Contract.{
  ok, get_state, modify, fail_if, or_fail, ◌>>=◌, ◌>>◌, >>=-inv, or_fail-inv, lift-inv, fail_if-inv,
}
use scout_off_contracts.Progress.Types.{
  Address, Env, State, Call, ProgressEntry, SyncReply, synced, player_unknown, other_failure,
  player_level_reset, called_set_player_level, not_initialized, registration_not_configured,
  no_level_change,
}
use scout_off_contracts.Progress.Storage.{admin_auth, emit, get_current_level}
use scout_off_contracts.Progress.History.{record_progress_entry}
use scout_off_contracts.Progress.History.Invariant.{SameFor}
use scout_off_contracts.Progress.Levels.{set_level, sync_registration, reset_player_level}
use scout_off_contracts.Progress.Levels.Chain.{PlayerHolds}
use scout_off_contracts.Progress.Levels.Frame.{SameFor-effects, SameFor-trans, PlayerHolds-SameFor}
use scout_off_contracts.Progress.Levels.Change.{entry, change-PlayerHolds, changed-SameFor}
use scout_off_contracts.Progress.Levels.Entry.{IsLive, require-IsLive-inv}

-- `require_admin` gives the stored administrator, who has authorised the call.
pub require_admin-inv :
    {E : Type 0} (stored : Option ℕ) (authorized : ℕ → Bool) (x : E) (admin : ℕ)
    → require_admin stored authorized x ≡ ok admin
    → (stored ≡ some admin) × (authorized admin ≡ true)
unfolding require_admin
require_admin-inv none authorized x admin e = cc
require_admin-inv (some a) authorized x admin e = elim (Bool-cases (authorized a)) [
  | inl given ↦ let same : a ≡ admin = ground arith in (ap some same, rw same at given)
  | inr missing ↦ ground arith
]

module _ (env : Env) (player_id : ℕ) (target_level : Level) where
  abbrev pub reset_state : State → Address → Address → State → State
  reset_state s admin reg after = record (set_level player_id target_level after) {
    effects =
        player_level_reset admin player_id (get_current_level s player_id) target_level
        ∷ called_set_player_level reg player_id target_level
        ∷ (set_level player_id target_level after).effects;
  }

  -- What a reset that returned went through.
  pub record WasReset (s t : State) : Type 0 where
    pub live : IsLive s
    pub admin : Address
    pub administered : s.admin ≡ some admin
    pub authorised : env.authorized admin ≡ true
    pub reg_contract : Address
    pub wired : s.registration_contract ≡ some reg_contract
    pub moved : level_eq (get_current_level s player_id) target_level ≡ false
    pub after : State
    pub appended :
        record_progress_entry env player_id (get_current_level s player_id) target_level admin 0 s
        ≡ ok (tt, after)
    pub synced_level : env.set_player_level_reply reg_contract player_id target_level ≡ synced
    pub result : t ≡ reset_state s admin reg_contract after

  abbrev finish : State → Address → Address → Call (Unit {0})
  finish s admin reg =
      modify (set_level player_id target_level)
      >> (sync_registration env reg player_id target_level
          >> emit (player_level_reset admin player_id (get_current_level s player_id) target_level))

  finish-inv :
      (s t after : State) (admin reg : Address) {u : Unit {0}}
      → finish s admin reg after ≡ ok (u, t)
      → (env.set_player_level_reply reg player_id target_level ≡ synced)
        × (t ≡ reset_state s admin reg after)
  finish-inv s t after admin reg e =
      split (env.set_player_level_reply reg player_id target_level) refl
    where
      split :
          (r : SyncReply)
          → env.set_player_level_reply reg player_id target_level ≡ r
          → (env.set_player_level_reply reg player_id target_level ≡ synced)
            × (t ≡ reset_state s admin reg after)
      split synced h = (h, unfold sync_registration in ground arith)
      split player_unknown h = unfold sync_registration in ground arith
      split other_failure h = unfold sync_registration in ground arith

  -- A reset that returned was authorised by the administrator of a live contract, changed the level,
  -- appended one entry, had the registration contract agree, and emitted its event last.
  pub reset_player_level-WasReset :
      (s t : State) → reset_player_level env player_id target_level s ≡ ok (tt, t) → WasReset s t
  unfolding reset_player_level
  reset_player_level-WasReset s t e =
      let (live, e₁) =
        require-IsLive-inv
          (do
            admin ← admin_auth env
            u ← get_state
            reg_contract ← or_fail u.registration_contract registration_not_configured
            fail_if (level_eq (get_current_level u player_id) target_level) no_level_change
            record_progress_entry env player_id (get_current_level u player_id) target_level admin 0
            finish u admin reg_contract)
          {s = s} e in
      let (admin, given, e₂) =
        lift-inv (require_admin s.admin env.authorized not_initialized) _ {s = s} e₁ in
      let (reg, wired, e₃) =
        or_fail-inv s.registration_contract registration_not_configured _ {s = s} e₂ in
      let (moved, e₄) =
        fail_if-inv (level_eq (get_current_level s player_id) target_level) no_level_change _
          {s = s} e₃ in
      let (u, after, appended, e₅) =
        >>=-inv
          (record_progress_entry env player_id (get_current_level s player_id) target_level admin 0)
          (λ _. finish s admin reg) e₄ in
      let (administered, authorised) =
        require_admin-inv s.admin env.authorized not_initialized admin given in
      let (agreed, result) = finish-inv s t after admin reg e₅ in
      record {
        live = live;
        admin = admin;
        administered = administered;
        authorised = authorised;
        reg_contract = reg;
        wired = wired;
        moved = moved;
        after = after;
        appended = appended;
        synced_level = agreed;
        result = result;
      }

module _ (env : Env) (player_id : ℕ) (target_level : Level) (history : List ProgressEntry)
    {s t : State} where
  -- What holds of the player after a reset, and of every other player.
  pub WasReset-PlayerHolds :
      PlayerHolds env.host s player_id history
      → (r : WasReset env player_id target_level s t)
      → PlayerHolds env.host t player_id
          (history ++ entry env s player_id history target_level r.admin 0 ∷ [])
        × ((other : ℕ) → other ≢ player_id → SameFor other s t)
  WasReset-PlayerHolds h r =
      let (root, ps, same, holds) =
        change-PlayerHolds env s player_id history target_level r.admin 0 h r.appended in
      let after = set_level player_id target_level r.after in
      let framed = λ (other : ℕ).
        subst (λ u. SameFor other u t) same
          (SameFor-effects {player_id = other} after t _ r.result) in
      (
        PlayerHolds-SameFor (framed player_id) holds,
        λ other ne.
            SameFor-trans
              (changed-SameFor env s player_id history target_level r.admin 0 other root ps ne)
              (framed other),
      )
