-- ===== src/Registration/Storage.antt =====
-- The guards, counters and indexes of contracts/registration/src/lib.rs that its operations share.
use scout_off_contracts.Prelude.{
  ℕ, Bool, true, false, not, ◌&&◌, Option, none, some, List, [], ◌∷◌, ◌++◌, ltb, leb, ◌==◌,
  if◌then◌else◌, or_default, bytes_eq,
}
use scout_off_contracts.Prelude.Words.{u64_max, checked_add}
use scout_off_contracts.Shared.Level.{Level, level_eq}
use scout_off_contracts.Shared.Types.{Address, Text, StoredPlayerProfile}
use scout_off_contracts.Shared.Admin.{require_auth, require_admin}
use scout_off_contracts.Shared.SafeMath.{safe_add_u64}
use scout_off_contracts.Contract.{
  lift, fail_if, or_fail, modify, get_state, pure, skip, ◌>>=◌, ◌>>◌,
}
use scout_off_contracts.Registration.Types.{
  Env, State, Call, Effect, not_initialized, contract_paused, player_not_found, overflow,
  registration_cooldown, scout_cap_reached, default_reg_cooldown_secs, max_scouts,
}

-- `require_admin` at the contract's own admin key.
abbrev pub admin_auth : Env → Call Address
admin_auth env s = lift (require_admin s.admin env.authorized not_initialized) s

abbrev pub auth : Env → Address → Call Address
auth env a = lift (require_auth env.authorized a)

abbrev pub log : Effect → State → State
log e s = record s { effects = e ∷ s.effects }

abbrev pub emit : Effect → Call (Unit {0})
emit e = modify (log e)

unfoldable pub require_initialized : Call (Unit {0})
require_initialized s = fail_if (not (or_default false s.initialized)) not_initialized s

unfoldable pub require_not_paused : Call (Unit {0})
require_not_paused s = fail_if (or_default false s.paused) contract_paused s

unfoldable pub get_reg_cooldown : State → ℕ
get_reg_cooldown s = or_default default_reg_cooldown_secs s.reg_cooldown_secs

-- `last_sent` is what the wallet's key holds.
unfoldable pub enforce_reg_cooldown : Env → Option ℕ → Call (Unit {0})
unfolding get_reg_cooldown safe_add_u64
enforce_reg_cooldown env none s = skip s
enforce_reg_cooldown env (some last_sent) s =
    if get_reg_cooldown s == 0
    then skip s
    else ((do
      next_allowed ← or_fail (safe_add_u64 last_sent (get_reg_cooldown s)) overflow
      fail_if (ltb env.timestamp next_allowed) registration_cooldown)
        s)

unfoldable pub load_stored_player : ℕ → Call StoredPlayerProfile
load_stored_player player_id s = or_fail (s.player player_id) player_not_found s

unfoldable pub next_player_id : Call ℕ
unfolding safe_add_u64
next_player_id = do
  s ← get_state
  next ← or_fail (safe_add_u64 (or_default 0 s.player_counter) 1) overflow
  modify (λ t. record t { player_counter = some next })
  pure next

unfoldable pub next_scout_id : Call ℕ
unfolding safe_add_u64
next_scout_id = do
  s ← get_state
  next ← or_fail (safe_add_u64 (or_default 0 s.scout_counter) 1) overflow
  modify (λ t. record t { scout_counter = some next })
  pure next

unfoldable pub increment_live_player_count : Call (Unit {0})
increment_live_player_count = do
  s ← get_state
  next ← or_fail (checked_add u64_max (or_default 0 s.live_player_count) 1) overflow
  modify (λ t. record t { live_player_count = some next })

unfoldable pub require_scout_capacity : Call (Unit {0})
require_scout_capacity s =
    fail_if (leb max_scouts (or_default 0 s.live_scout_count)) scout_cap_reached s

unfoldable pub increment_live_scout_count : Call (Unit {0})
increment_live_scout_count = do
  s ← get_state
  next ← or_fail (checked_add u64_max (or_default 0 s.live_scout_count) 1) overflow
  modify (λ t. record t { live_scout_count = some next })

-- `iter().position(..)` and `remove`: the first occurrence goes.
unfoldable pub remove_id : ℕ → List ℕ → List ℕ
remove_id player_id [] = []
remove_id player_id (x ∷ xs) =
    let rest = remove_id player_id xs in if x == player_id then xs else x ∷ rest

unfoldable pub has_id : ℕ → List ℕ → Bool
has_id player_id [] = false
has_id player_id (x ∷ xs) = let rest = has_id player_id xs in if x == player_id then true else rest

-- What a bucket key holds, with an absent key as the empty list.
unfoldable pub region_bucket : State → Level → Text → List ℕ
region_bucket s level region = or_default [] (s.players_by_level_region level region)

unfoldable pub level_bucket : State → Level → List ℕ
level_bucket s level = or_default [] (s.players_by_level level)

-- A write at the key of one bucket.
unfoldable pub set_region_bucket : Level → Text → List ℕ → State → State
set_region_bucket level region ids s = record s {
  players_by_level_region = λ l r.
      if level_eq level l && bytes_eq region r then some ids else s.players_by_level_region l r;
}

unfoldable pub set_level_bucket : Level → List ℕ → State → State
set_level_bucket level ids s = record s {
  players_by_level = λ l. if level_eq level l then some ids else s.players_by_level l;
}

unfoldable pub composite_index_add : Level → Text → ℕ → State → State
composite_index_add level region player_id s =
    set_region_bucket level region (region_bucket s level region ++ player_id ∷ []) s

-- The key is written only if the player is in the bucket.
unfoldable pub composite_index_remove : Level → Text → ℕ → State → State
composite_index_remove level region player_id s =
    let ids = region_bucket s level region in
    record s {
      players_by_level_region = λ l r.
          if (level_eq level l && bytes_eq region r) && has_id player_id ids
          then some (remove_id player_id ids)
          else s.players_by_level_region l r;
    }

unfoldable pub level_index_add : Level → ℕ → State → State
level_index_add level player_id s =
    set_level_bucket level (level_bucket s level ++ player_id ∷ []) s

unfoldable pub level_index_remove : Level → ℕ → State → State
level_index_remove level player_id s =
    let ids = level_bucket s level in
    record s {
      players_by_level = λ l.
          if level_eq level l && has_id player_id ids
          then some (remove_id player_id ids)
          else s.players_by_level l;
    }
