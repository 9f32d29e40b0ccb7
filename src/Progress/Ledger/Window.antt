-- ===== src/Progress/Ledger/Window.antt =====
-- The administrator and the migration window of contracts/progress/src/lib.rs over sequences of requests.
use scout_off_contracts.Prelude.{
  ℕ, ◌≡◌, refl, true, false, ◌⊎◌, inl, inr, none, some, List, [], ◌∷◌, arith, or_default,
  Option-cases, Bool-cases,
}
use scout_off_contracts.Shared.Level.{Level}
use scout_off_contracts.Shared.Admin.{require_admin}
use scout_off_contracts.Contract.{Outcome, ok, err, trap}
use scout_off_contracts.Progress.Types.{Address, Env, State, ProgressError}
use scout_off_contracts.Progress.Storage.{require_initialized, require_migration_active}
use scout_off_contracts.Progress.Admin.{
  init_state, initialize, set_registration_contract, set_verification_contract,
  set_scout_access_contract, pause_contract, unpause_contract, propose_admin, accept_admin, upgrade,
  open_migration_window, close_migration_window,
}
use scout_off_contracts.Progress.Levels.Entry.{advance_level-inv, advance_level_for_scout-inv}
use scout_off_contracts.Progress.Levels.Reset.{reset_player_level-WasReset}
use scout_off_contracts.Progress.Levels.Config.{
  SameConfig, Advanced-SameConfig, WasReset-SameConfig,
}
use scout_off_contracts.Progress.Ledger.{
  Request, initialize_request, propose_request, set_registration_request, set_verification_request,
  set_scout_access_request, pause_request, unpause_request, accept_request, open_window_request,
  close_window_request, upgrade_request, advance_request, advance_for_scout_request, reset_request,
  commit, serve, run,
}

-- Closed for good.
pub record IsSealed (s : State) : Type 0 where
  pub sealed : s.migration_window_sealed ≡ some true
  pub inactive : or_default false s.migration_active ≡ false

-- A call that keeps the configuration.
commit-SameConfig :
    {A : Type 0} (P : State → Type 0) {s : State}
    → P s
    → ((t : State) → SameConfig s t → P t)
    → (o : Outcome ProgressError (A × State))
    → ((a : A) (t : State) → o ≡ ok (a, t) → SameConfig s t)
    → P (commit s o)
commit-SameConfig P h keep (ok (a, t)) k = keep t (k a t refl)
commit-SameConfig P h keep (err e) k = h
commit-SameConfig P h keep trap k = h

module _ (env : Env) {s : State} (P : State → Type 0) (h : P s)
    (keep : (t : State) → SameConfig s t → P t) where
  -- The calls that change levels keep what depends on the configuration only.
  advance_level-keeps :
      (caller : Address) (player_id milestone_ref : ℕ)
      → P (serve env (advance_request caller player_id milestone_ref) s)
  unfolding serve
  advance_level-keeps caller player_id milestone_ref = commit-SameConfig P h keep _ λ level t e.
      (let (live, authority, advanced) = advance_level-inv env caller player_id milestone_ref e in
        Advanced-SameConfig env caller _ _ player_id milestone_ref advanced)

  advance_level_for_scout-keeps :
      (scout : Address) (player_id milestone_ref : ℕ)
      → P (serve env (advance_for_scout_request scout player_id milestone_ref) s)
  unfolding serve
  advance_level_for_scout-keeps scout player_id milestone_ref =
      commit-SameConfig P h keep _ λ level t e.
        (let (live, authority, advanced) =
            advance_level_for_scout-inv env scout player_id milestone_ref e in
          Advanced-SameConfig env scout _ _ player_id milestone_ref advanced)

  reset_player_level-keeps :
      (player_id : ℕ) (target_level : Level)
      → P (serve env (reset_request player_id target_level) s)
  unfolding serve
  reset_player_level-keeps player_id target_level = commit-SameConfig P h keep _ λ u t e.
      WasReset-SameConfig env player_id target_level
        (reset_player_level-WasReset env player_id target_level s t e)

IsSealed-SameConfig : {s t : State} → IsSealed s → SameConfig s t → IsSealed t
IsSealed-SameConfig h c = record {
  sealed = rw c.migration_window_sealed h.sealed;
  inactive = rw c.migration_active h.inactive;
}

serve-IsSealed :
    (env : Env) (request : Request) (s : State) → IsSealed s → IsSealed (serve env request s)
unfolding serve require_admin
serve-IsSealed env (initialize_request admin) s h = unfold initialize in ground arith
serve-IsSealed env (propose_request new_admin) s h = unfold propose_admin in ground arith
serve-IsSealed env (set_registration_request addr) s h =
    unfold set_registration_contract in ground arith
serve-IsSealed env (set_verification_request addr) s h =
    unfold set_verification_contract in ground arith
serve-IsSealed env (set_scout_access_request addr) s h =
    unfold set_scout_access_contract in ground arith
serve-IsSealed env pause_request s h = unfold pause_contract in ground arith
serve-IsSealed env unpause_request s h = unfold unpause_contract in ground arith
serve-IsSealed env accept_request s h = unfold accept_admin in ground arith
serve-IsSealed env open_window_request s h =
    unfold open_migration_window require_initialized in ground arith
serve-IsSealed env close_window_request s h =
    unfold close_migration_window require_initialized require_migration_active in ground arith
serve-IsSealed env (upgrade_request new_wasm_hash) s h = unfold upgrade in ground arith
serve-IsSealed env (advance_request caller player_id milestone_ref) s h =
    advance_level-keeps env IsSealed h (λ t. IsSealed-SameConfig h) caller player_id milestone_ref
serve-IsSealed env (advance_for_scout_request scout player_id milestone_ref) s h =
    advance_level_for_scout-keeps env IsSealed h (λ t. IsSealed-SameConfig h) scout player_id
      milestone_ref
serve-IsSealed env (reset_request player_id target_level) s h =
    reset_player_level-keeps env IsSealed h (λ t. IsSealed-SameConfig h) player_id target_level

-- Once the migration window is sealed and inactive, it stays so whatever calls arrive.
pub run-IsSealed : (calls : List (Env × Request)) (s : State) → IsSealed s → IsSealed (run calls s)
unfolding run
run-IsSealed [] s h = h
run-IsSealed ((env, request) ∷ calls) s h =
    run-IsSealed calls (serve env request s) (serve-IsSealed env request s h)

-- `t` has the administrator of `s`, or the one that was pending in `s` and has authorised the call,
-- or the first one of a contract that was not set up.
abbrev pub AdminStep : Env → State → State → Type 0
AdminStep env s t =
    (t.admin ≡ s.admin)
    ⊎ ((a : Address) × (s.pending_admin ≡ some a) × (env.authorized a ≡ true) × (t.admin ≡ some a))
    ⊎ ((a : Address) × (s.initialized ≡ none) × (env.authorized a ≡ true) × (t.admin ≡ some a))

-- A request changes the administrator only to the pending one, with that one's authorisation, or
-- when it sets up a contract that was not set up, with the authorisation of the new one.
pub serve-AdminStep :
    (env : Env) (request : Request) (s : State) → AdminStep env s (serve env request s)
unfolding serve require_admin
serve-AdminStep env (initialize_request admin) s = elim (Option-cases s.initialized) [
  | inr (b, old) ↦ inl (unfold initialize in ground arith)
  | inl new ↦ elim (Bool-cases (env.authorized admin)) [
    | inl given ↦ inr (inr (admin, new, given, unfold initialize init_state in ground arith))
    | inr missing ↦ inl (unfold initialize in ground arith)
  ]
]
serve-AdminStep env (propose_request new_admin) s = inl (unfold propose_admin in ground arith)
serve-AdminStep env (set_registration_request addr) s =
    inl (unfold set_registration_contract in ground arith)
serve-AdminStep env (set_verification_request addr) s =
    inl (unfold set_verification_contract in ground arith)
serve-AdminStep env (set_scout_access_request addr) s =
    inl (unfold set_scout_access_contract in ground arith)
serve-AdminStep env pause_request s = inl (unfold pause_contract in ground arith)
serve-AdminStep env unpause_request s = inl (unfold unpause_contract in ground arith)
serve-AdminStep env accept_request s = elim (Option-cases s.admin) [
  | inl missing ↦ inl (unfold accept_admin in ground arith)
  | inr (old, e) ↦ elim (Option-cases s.pending_admin) [
    | inl missing ↦ inl (unfold accept_admin in ground arith)
    | inr (new, p) ↦ elim (Bool-cases (env.authorized new)) [
      | inl given ↦ inr (inl (new, p, given, unfold accept_admin in ground arith))
      | inr missing ↦ inl (unfold accept_admin in ground arith)
    ]
  ]
]
serve-AdminStep env open_window_request s =
    inl (unfold open_migration_window require_initialized in ground arith)
serve-AdminStep env close_window_request s =
    inl (unfold close_migration_window require_initialized require_migration_active in ground arith)
serve-AdminStep env (upgrade_request new_wasm_hash) s = inl (unfold upgrade in ground arith)
serve-AdminStep env (advance_request caller player_id milestone_ref) s = inl (
    advance_level-keeps env (λ t. t.admin ≡ s.admin) refl (λ t c. c.admin) caller player_id
      milestone_ref)
serve-AdminStep env (advance_for_scout_request scout player_id milestone_ref) s = inl (
    advance_level_for_scout-keeps env (λ t. t.admin ≡ s.admin) refl (λ t c. c.admin) scout player_id
      milestone_ref)
serve-AdminStep env (reset_request player_id target_level) s = inl (
    reset_player_level-keeps env (λ t. t.admin ≡ s.admin) refl (λ t c. c.admin) player_id
      target_level)

-- Closing the migration window seals it: after any sequence of later requests it is closed and sealed.
pub close_migration_window-IsSealed :
    (env : Env) (calls : List (Env × Request)) (s t : State)
    → close_migration_window env s ≡ ok (tt, t)
    → IsSealed (run calls t)
unfolding close_migration_window require_initialized require_migration_active require_admin
close_migration_window-IsSealed env calls s t e =
    run-IsSealed calls t (record { sealed = ground arith; inactive = ground arith })
