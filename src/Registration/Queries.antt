-- ===== src/Registration/Queries.antt =====
-- The reads of contracts/registration/src/lib.rs: profiles, statuses, batches and discovery.
use scout_off_contracts.Prelude.{
  ℕ, Bool, true, false, not, Option, none, some, List, [], ◌∷◌, ◌++◌, ltb, if◌then◌else◌,
  or_default, is_some, length,
}
use scout_off_contracts.Shared.Level.{Level, unverified}
use scout_off_contracts.Shared.Types.{Address, StoredPlayerProfile, PlayerProfile, PlayerSummary}
use scout_off_contracts.Contract.{Outcome, ok, err, trap}
use scout_off_contracts.Registration.Types.{
  Env, State, ScoutChainError, ScoutProfile, ScoutVerificationRecord, PlayerStatus, player_active,
  player_inactive, ScoutStatus, scout_active, scout_inactive, scout_not_registered,
  player_not_found, scout_not_found, invalid_input, max_batch_size,
}
use scout_off_contracts.Registration.Storage.{has_id}

abbrev pub Result : Type 0 → Type 0
Result = Outcome ScoutChainError

-- `?` on a result.
abbrev pub and_then : {A B : Type 0} → Result A → (A → Result B) → Result B
and_then (ok a) f = f a
and_then (err e) f = err e
and_then trap f = trap

abbrev pub ok_or : {A : Type 0} → Option A → ScoutChainError → Result A
ok_or none e = err e
ok_or (some a) e = ok a

-- The level of the progress contract is asked for only when none is stored.
unfoldable pub resolve_level : Env → State → ℕ → Result Level
resolve_level env s player_id = elim (s.player_level player_id) [
  | some level ↦ ok level
  | none ↦ elim s.progress_contract [
    | none ↦ ok unverified
    | some progress_addr ↦ elim (env.get_level progress_addr player_id) [
      | none ↦ trap
      | some level ↦ ok level
    ]
  ]
]

unfoldable pub stored_to_profile : StoredPlayerProfile → Level → PlayerProfile
stored_to_profile stored level = record {
  player_id = stored.player_id;
  wallet = stored.wallet;
  vitals = stored.vitals;
  ipfs_hashes = stored.ipfs_hashes;
  level = level;
  registered_at = stored.registered_at;
  updated_at = stored.updated_at;
}

unfoldable pub load_player : Env → State → ℕ → Result PlayerProfile
load_player env s player_id =
    and_then (ok_or (s.player player_id) player_not_found) λ stored.
      and_then (resolve_level env s player_id) λ level. ok (stored_to_profile stored level)

unfoldable pub get_player : Env → State → ℕ → Result PlayerProfile
get_player env s player_id = load_player env s player_id

unfoldable pub is_player_deactivated : State → ℕ → Bool
is_player_deactivated s player_id = or_default false (s.player_deactivated player_id)

unfoldable pub to_player_summary : PlayerProfile → PlayerSummary
to_player_summary profile = record {
  player_id = profile.player_id;
  vitals = profile.vitals;
  level = profile.level;
  updated_at = profile.updated_at;
}

unfoldable pub get_player_summary : Env → State → ℕ → Result PlayerSummary
get_player_summary env s player_id =
    and_then (load_player env s player_id) λ profile. ok (to_player_summary profile)

-- The ids at their first occurrences: what the loops of the batches read.
unfoldable pub unseen : List ℕ → List ℕ → List ℕ
unseen seen [] = []
unseen seen (id ∷ ids) = elim (has_id id seen) [
  | true ↦ unseen seen ids
  | false ↦ id ∷ unseen (seen ++ id ∷ []) ids
]

-- A missing player is skipped.
unfoldable pub collect_summaries : Env → State → List ℕ → Result (List PlayerSummary)
collect_summaries env s [] = ok []
collect_summaries env s (id ∷ ids) =
    let rest = collect_summaries env s ids in
    elim (load_player env s id) [
      | ok profile ↦ and_then rest λ summaries. ok (to_player_summary profile ∷ summaries)
      | err e ↦ rest
      | trap ↦ trap
    ]

unfoldable pub get_players : Env → State → List ℕ → Result (List PlayerSummary)
unfolding unseen
get_players env s ids =
    if ltb max_batch_size (length ids)
    then err invalid_input
    else collect_summaries env s (unseen [] ids)

unfoldable pub get_player_id_by_wallet : State → Address → Result ℕ
get_player_id_by_wallet s wallet = ok_or (s.player_by_wallet wallet) player_not_found

unfoldable pub get_player_by_wallet : Env → State → Address → Result PlayerProfile
get_player_by_wallet env s wallet =
    and_then (ok_or (s.player_by_wallet wallet) player_not_found)
      λ player_id. load_player env s player_id

unfoldable pub get_player_status : State → ℕ → Result PlayerStatus
get_player_status s player_id = and_then (ok_or (s.player player_id) player_not_found) λ stored.
    if or_default false (s.player_deactivated player_id)
    then ok player_inactive
    else ok player_active

unfoldable pub get_scout_status : State → ℕ → ScoutStatus
get_scout_status s scout_id =
    if not (is_some (s.scout scout_id))
    then scout_not_registered
    else if or_default false (s.scout_deactivated scout_id)
    then scout_inactive
    else scout_active

unfoldable pub is_scout_deactivated : State → ℕ → Bool
is_scout_deactivated s scout_id =
    if not (is_some (s.scout scout_id))
    then false
    else or_default false (s.scout_deactivated scout_id)

unfoldable pub get_scout : State → ℕ → Result ScoutProfile
get_scout s scout_id = ok_or (s.scout scout_id) scout_not_found

unfoldable pub get_scout_by_wallet : State → Address → Result ScoutProfile
unfolding get_scout
get_scout_by_wallet s wallet =
    and_then (ok_or (s.scout_by_wallet wallet) scout_not_found) λ scout_id. get_scout s scout_id

unfoldable pub collect_scouts : State → List ℕ → List ScoutProfile
collect_scouts s [] = []
collect_scouts s (id ∷ ids) =
    let rest = collect_scouts s ids in
    elim (s.scout id) [ none ↦ rest | some profile ↦ profile ∷ rest ]

unfoldable pub get_scouts : State → List ℕ → Result (List ScoutProfile)
unfolding unseen
get_scouts s ids =
    if ltb max_batch_size (length ids)
    then err invalid_input
    else ok (collect_scouts s (unseen [] ids))

unfoldable pub is_scout_verified : State → Address → Bool
is_scout_verified s wallet = elim (s.scout_by_wallet wallet) [
  | none ↦ false
  | some scout_id ↦ elim (s.scout scout_id) [ none ↦ false | some p ↦ p.verified ]
]

unfoldable pub get_scout_verification : State → ℕ → Result ScoutVerificationRecord
get_scout_verification s scout_id =
    and_then (ok_or (s.scout scout_id) scout_not_found) λ profile. ok profile.verification

unfoldable pub get_player_count : State → ℕ
get_player_count s =
    if not (or_default false s.initialized) then 0 else or_default 0 s.live_player_count

unfoldable pub get_scout_count : State → ℕ
get_scout_count s =
    if not (or_default false s.initialized) then 0 else or_default 0 s.live_scout_count
