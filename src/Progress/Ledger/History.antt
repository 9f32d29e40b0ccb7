-- ===== src/Progress/Ledger/History.antt =====
-- The players' histories of contracts/progress/src/lib.rs over sequences of requests.
use native.Mathlib.Decide.{ℕ_discrete}
use mathlib.Core.List.{append-nil, append_assoc}
use scout_off_contracts.Prelude.{ℕ, ◌≡◌, ◌≢◌, refl, sym, subst, List, [], ◌∷◌, ◌++◌, arith}
use scout_off_contracts.Contract.{Outcome, ok, err, trap}
use scout_off_contracts.Progress.Types.{Env, Host, State, ProgressError, ProgressEntry}
use scout_off_contracts.Progress.Storage.{get_current_level}
use scout_off_contracts.Progress.History.Invariant.{SameFor}
use scout_off_contracts.Progress.Levels.Chain.{PlayerHolds}
use scout_off_contracts.Progress.Levels.Frame.{SameFor-refl, PlayerHolds-SameFor}
use scout_off_contracts.Progress.Levels.Advance.{Advanced-PlayerHolds}
use scout_off_contracts.Progress.Levels.Entry.{advance_level-inv, advance_level_for_scout-inv}
use scout_off_contracts.Progress.Levels.Reset.{reset_player_level-WasReset, WasReset-PlayerHolds}
use scout_off_contracts.Progress.Admin.Frame.{
  initialize-SameFor, set_registration_contract-SameFor, set_verification_contract-SameFor,
  set_scout_access_contract-SameFor, pause_contract-SameFor, unpause_contract-SameFor,
  propose_admin-SameFor, accept_admin-SameFor, upgrade-SameFor, open_migration_window-SameFor,
  close_migration_window-SameFor,
}
use scout_off_contracts.Progress.Ledger.{
  Request, initialize_request, propose_request, set_registration_request, set_verification_request,
  set_scout_access_request, pause_request, unpause_request, accept_request, open_window_request,
  close_window_request, upgrade_request, advance_request, advance_for_scout_request, reset_request,
  commit, serve, run, empty,
}

-- Every player's record holds, with the histories that a function gives.
abbrev pub AllHold : Host → (ℕ → List ProgressEntry) → State → Type 0
AllHold host histories s = (player_id : ℕ) → PlayerHolds host s player_id (histories player_id)

-- Every player's record holds, with a history that begins with the given one.
abbrev pub AllGrow : Host → (ℕ → List ProgressEntry) → State → Type 0
AllGrow host histories t =
    (player_id : ℕ)
    → (more : List ProgressEntry) × PlayerHolds host t player_id (histories player_id ++ more)

module _ (host : Host) (histories : ℕ → List ProgressEntry) {s : State}
    (all : AllHold host histories s) where
  AllGrow-same : {t : State} → ((player_id : ℕ) → SameFor player_id s t) → AllGrow host histories t
  AllGrow-same {t} same player_id = (
    [],
    subst (PlayerHolds host t player_id) (sym (append-nil (histories player_id)))
        (PlayerHolds-SameFor (same player_id) (all player_id)),
  )

  -- A call that keeps the records when it returns keeps them when it is rolled back.
  commit-AllGrow :
      {A : Type 0} (o : Outcome ProgressError (A × State))
      → ((a : A) (t : State) → o ≡ ok (a, t) → AllGrow host histories t)
      → AllGrow host histories (commit s o)
  commit-AllGrow (ok (a, t)) k = k a t refl
  commit-AllGrow (err e) k = AllGrow-same (λ player_id. SameFor-refl s)
  commit-AllGrow trap k = AllGrow-same (λ player_id. SameFor-refl s)

  -- A call that keeps everything that is kept for players.
  commit-AllGrow_same :
      {A : Type 0} (o : Outcome ProgressError (A × State))
      → ((player_id : ℕ) (a : A) (t : State) → o ≡ ok (a, t) → SameFor player_id s t)
      → AllGrow host histories (commit s o)
  commit-AllGrow_same o k = commit-AllGrow o λ a t e. AllGrow-same (λ player_id. k player_id a t e)

  -- One more entry for one player.
  AllGrow-entry :
      {t : State} (target : ℕ) (e : ProgressEntry)
      → PlayerHolds host t target (histories target ++ e ∷ [])
        × ((other : ℕ) → other ≢ target → SameFor other s t)
      → AllGrow host histories t
  AllGrow-entry {t} target e (grown, others) player_id = elim (ℕ_discrete player_id target) [
    | no ne ↦ (
      [],
      subst (PlayerHolds host t player_id) (sym (append-nil (histories player_id)))
          (PlayerHolds-SameFor (others player_id ne) (all player_id)),
    )
    | yes same ↦
        (e ∷ [], subst (λ p. PlayerHolds host t p (histories p ++ e ∷ [])) (sym same) grown)
  ]

module _ (env : Env) (histories : ℕ → List ProgressEntry) {s : State}
    (all : AllHold env.host histories s) where
  -- Every call, committed or rolled back, lets every history grow at its end only.
  serve-AllGrow : (request : Request) → AllGrow env.host histories (serve env request s)
  unfolding serve
  serve-AllGrow (initialize_request admin) =
      commit-AllGrow_same env.host histories all _ λ p u t e. initialize-SameFor env p admin e
  serve-AllGrow (propose_request new_admin) =
      commit-AllGrow_same env.host histories all _
        λ p u t e. propose_admin-SameFor env p new_admin e
  serve-AllGrow (set_registration_request addr) =
      commit-AllGrow_same env.host histories all _
        λ p u t e. set_registration_contract-SameFor env p addr e
  serve-AllGrow (set_verification_request addr) =
      commit-AllGrow_same env.host histories all _
        λ p u t e. set_verification_contract-SameFor env p addr e
  serve-AllGrow (set_scout_access_request addr) =
      commit-AllGrow_same env.host histories all _
        λ p u t e. set_scout_access_contract-SameFor env p addr e
  serve-AllGrow pause_request =
      commit-AllGrow_same env.host histories all _ λ p u t e. pause_contract-SameFor env p e
  serve-AllGrow unpause_request =
      commit-AllGrow_same env.host histories all _ λ p u t e. unpause_contract-SameFor env p e
  serve-AllGrow accept_request =
      commit-AllGrow_same env.host histories all _ λ p u t e. accept_admin-SameFor env p e
  serve-AllGrow open_window_request =
      commit-AllGrow_same env.host histories all _ λ p u t e. open_migration_window-SameFor env p e
  serve-AllGrow close_window_request =
      commit-AllGrow_same env.host histories all _ λ p u t e. close_migration_window-SameFor env p e
  serve-AllGrow (upgrade_request new_wasm_hash) =
      commit-AllGrow_same env.host histories all _ λ p u t e. upgrade-SameFor env p new_wasm_hash e
  serve-AllGrow (advance_request caller target milestone_ref) =
      commit-AllGrow env.host histories all _ λ level t e.
        (let (live, authority, advanced) = advance_level-inv env caller target milestone_ref e in
          AllGrow-entry env.host histories all target _ (
            Advanced-PlayerHolds env caller _ _ target milestone_ref (histories target) (all target)
              advanced))
  serve-AllGrow (advance_for_scout_request scout target milestone_ref) =
      commit-AllGrow env.host histories all _ λ level t e.
        (let (live, authority, advanced) =
            advance_level_for_scout-inv env scout target milestone_ref e in
          AllGrow-entry env.host histories all target _ (
            Advanced-PlayerHolds env scout _ _ target milestone_ref (histories target) (all target)
              advanced))
  serve-AllGrow (reset_request target target_level) =
      commit-AllGrow env.host histories all _ λ u t e.
        AllGrow-entry env.host histories all target _ (
          WasReset-PlayerHolds env target target_level (histories target) (all target)
            (reset_player_level-WasReset env target target_level s t e))

-- All calls are served on one host.
abbrev pub OnHost : Host → List (Env × Request) → Type 0
OnHost host [] = Unit
OnHost host (call ∷ calls) = (call.0.host ≡ host) × OnHost host calls

-- From a state in which every player's record holds its history: whatever requests arrive on one host,
-- each history only grows at its end, and after them the stored entries, counter, pages, frontier,
-- root and level still agree with it.
pub run-AllGrow :
    (host : Host) (calls : List (Env × Request)) (histories : ℕ → List ProgressEntry) (s : State)
    → OnHost host calls
    → AllHold host histories s
    → AllGrow host histories (run calls s)
unfolding run
run-AllGrow host [] histories s on all = AllGrow-same host histories all (λ p. SameFor-refl s)
run-AllGrow host ((env, request) ∷ calls) histories s on all =
    let step =
      subst (λ h. AllHold h histories s → AllGrow h histories (serve env request s)) on.0
        (λ a. serve-AllGrow env histories a request) all in
    let longer : ℕ → List ProgressEntry = λ p. histories p ++ (step p).0 in
    let rest = run-AllGrow host calls longer (serve env request s) on.1 (λ p. (step p).1) in
    λ p. (
      (step p).0 ++ (rest p).0,
      subst (PlayerHolds host (run calls (serve env request s)) p)
          (append_assoc (histories p) (step p).0 (rest p).0) (rest p).1,
    )

-- Before the first call every history is empty.
pub empty-AllHold : (host : Host) → AllHold host (λ _. []) empty
unfolding get_current_level
empty-AllHold host player_id = record {
  stored = record {
    counter = refl;
    bounded = omega arith;
    entries = λ i. refl;
    pages = λ p. tt;
    frontier = tt;
    root = refl;
  };
  chained = tt;
  reached = refl;
  own = tt;
}
