-- ===== src/Progress/Levels/Entry.antt =====
-- The entry points of contracts/progress/src/lib.rs that advance a level: callers and state.
use scout_off_contracts.Prelude.{
  ℕ, ◌≡◌, refl, Bool, true, false, not, Bool-cases, Option-cases, some, arith, or_default, ◌⊎◌, inl,
  inr, if◌then◌else◌,
}
use scout_off_contracts.Shared.Level.{Level}
use scout_off_contracts.Contract.{ok, get_state, or_fail, ◌>>=◌, ◌>>◌, or_fail-inv, fail_if-inv}
use scout_off_contracts.Progress.Types.{Address, Env, State, Call, not_initialized, contract_paused}
use scout_off_contracts.Progress.Storage.{auth, require_initialized, require_not_paused}
use scout_off_contracts.Progress.Levels.{
  is_address, verification_auth, advance_level_authorized, advance_level, advance_level_for_scout,
}
use scout_off_contracts.Progress.Levels.Advance.{Advanced, advance_level_authorized-Advanced}

-- The contract is set up and not paused.
pub record IsLive (s : State) : Type 0 where
  pub running : or_default false s.paused ≡ false
  pub initialized : or_default false s.initialized ≡ true

not-false : (b : Bool) → not b ≡ false → b ≡ true
not-false true h = refl
not-false false h = cc

pub require-IsLive-inv :
    {A : Type 0} (f : Call A) {s : State} {r : A × State}
    → (require_not_paused >> (require_initialized >> f)) s ≡ ok r
    → IsLive s × (f s ≡ ok r)
unfolding require_not_paused require_initialized
require-IsLive-inv f {s} e =
    let (running, e₁) = fail_if-inv (or_default false s.paused) contract_paused _ e in
    let (up, e₂) = fail_if-inv (not (or_default false s.initialized)) not_initialized _ e₁ in
    (record { running = running; initialized = not-false _ up }, e₂)

auth-inv :
    {A : Type 0} (env : Env) (a : Address) (f : Address → Call A) {s : State} {r : A × State}
    → (auth env a >>= f) s ≡ ok r
    → (env.authorized a ≡ true) × (f a s ≡ ok r)
auth-inv env a f e = elim (Bool-cases (env.authorized a)) [
  | inl given ↦ (given, rw given at e)
  | inr missing ↦ ground arith
]

-- An authorised address that the contract takes an advance from.
abbrev pub Authority : Env → State → Address → Type 0
Authority env s caller =
    ((is_address s.scout_access_contract caller ≡ true) × (env.authorized caller ≡ true))
    ⊎ ((is_address s.scout_access_contract caller ≡ false)
        × (vc : Address) × (s.verification_contract ≡ some vc)
        × (env.authorized vc ≡ true))

Authority-inv :
    {A : Type 0} (env : Env) (caller : Address) (body : Call A) {s : State} {r : A × State}
    → ((if is_address s.scout_access_contract caller
            then auth env caller
            else verification_auth env s.verification_contract)
          >> body)
        s
      ≡ ok r
    → Authority env s caller × (body s ≡ ok r)
Authority-inv env caller body {s} e =
    elim (Bool-cases (is_address s.scout_access_contract caller)) [
      | inl secondary ↦ ground arith
      | inr primary ↦ elim (Option-cases s.verification_contract) [
        | inl missing ↦ ground arith
        | inr (vc, wired) ↦
            let given : env.authorized vc ≡ true = ground arith in
            (inr (primary, vc, wired, given), ground arith)
      ]
    ]

module _ (env : Env) (caller : Address) (player_id milestone_ref : ℕ) {s t : State}
    {level : Level} where
  -- An `advance_level` that returned was called on a live contract, with the authorisation of the
  -- scout access contract as caller or else of the verification contract, and it went through the
  -- guards and the effects of an advance, which `Advanced` lists.
  pub advance_level-inv :
      advance_level env caller player_id milestone_ref s ≡ ok (level, t)
      → IsLive s
        × Authority env s caller
        × Advanced env caller
            (is_address s.scout_access_contract caller)
            s.verification_contract
            player_id
            milestone_ref
            s
            t
            level
  unfolding advance_level
  advance_level-inv e =
      let secondary = is_address s.scout_access_contract caller in
      let body =
        advance_level_authorized env caller secondary s.verification_contract player_id
          milestone_ref in
      let (live, e₁) =
        require-IsLive-inv
          (do
            u ← get_state
            (if is_address u.scout_access_contract caller
                then auth env caller
                else verification_auth env u.verification_contract)
            advance_level_authorized env caller (is_address u.scout_access_contract caller)
                u.verification_contract player_id milestone_ref)
          {s = s} e in
      let (authority, e₂) = Authority-inv env caller body e₁ in
      (
        live,
        authority,
        advance_level_authorized-Advanced env caller secondary s.verification_contract player_id
            milestone_ref s t level e₂,
      )

  -- An `advance_level_for_scout` that returned was called on a live contract, with the authorisation
  -- of the scout access contract, whoever the scout is, and it went through the guards and the effects
  -- of an advance by a secondary caller, the milestone check among them.
  pub advance_level_for_scout-inv :
      advance_level_for_scout env caller player_id milestone_ref s ≡ ok (level, t)
      → IsLive s
        × ((secondary : Address) × (s.scout_access_contract ≡ some secondary)
            × (env.authorized secondary ≡ true))
        × Advanced env caller true s.verification_contract player_id milestone_ref s t level
  unfolding advance_level_for_scout
  advance_level_for_scout-inv e =
      let (live, e₁) =
        require-IsLive-inv
          (do
            u ← get_state
            secondary ← or_fail u.scout_access_contract not_initialized
            auth env secondary
            advance_level_authorized env caller true u.verification_contract player_id
                milestone_ref)
          {s = s} e in
      let (secondary, wired, e₂) =
        or_fail-inv s.scout_access_contract not_initialized _ {s = s} e₁ in
      let body =
        advance_level_authorized env caller true s.verification_contract player_id milestone_ref in
      let (given, e₃) = auth-inv env secondary (λ _. body) {s = s} e₂ in
      (
        live,
        (secondary, wired, given),
        advance_level_authorized-Advanced env caller true s.verification_contract player_id
            milestone_ref s t level e₃,
      )
