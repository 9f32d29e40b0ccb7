-- ===== src/Progress/Storage.antt =====
-- The reads of contracts/progress/src/lib.rs that several operations share, and its guards.
use scout_off_contracts.Prelude.{
  ℕ, zero, suc, ◌+◌, ◌-◌, ◌*◌, ◌/◌, min, false, not, Option, none, some, List, [], ◌∷◌, ◌++◌, ◌==◌,
  if◌then◌else◌, or_default,
}
use scout_off_contracts.Shared.Level.{Level, unverified}
use scout_off_contracts.Shared.Admin.{require_auth, require_admin}
use scout_off_contracts.Contract.{lift, fail_if, modify}
use scout_off_contracts.Progress.Types.{
  Address, Host, Env, State, Call, Effect, ProgressEntry, FrontierPeak, not_initialized,
  contract_paused, migration_not_active, history_page_size,
}
use scout_off_contracts.Progress.Merkle.{build_frontier}

-- `require_admin` at the contract's own admin key.
abbrev pub admin_auth : Env → Call Address
admin_auth env s = lift (require_admin s.admin env.authorized not_initialized) s

abbrev pub auth : Env → Address → Call Address
auth env a = lift (require_auth env.authorized a)

abbrev pub emit : Effect → Call (Unit {0})
emit e = modify (λ s. record s { effects = e ∷ s.effects })

unfoldable pub require_initialized : Call (Unit {0})
require_initialized s = fail_if (not (or_default false s.initialized)) not_initialized s

unfoldable pub require_not_paused : Call (Unit {0})
require_not_paused s = fail_if (or_default false s.paused) contract_paused s

unfoldable pub require_migration_active : Call (Unit {0})
require_migration_active s =
    fail_if (not (or_default false s.migration_active)) migration_not_active s

unfoldable pub get_current_level : State → ℕ → Level
get_current_level s player_id = or_default unverified (s.player_level player_id)

unfoldable pub history_page_index : ℕ → ℕ
history_page_index index = (index - 1) / history_page_size

-- `for i in start..start + n`, pushing what is there.
unfoldable pub collect : {A : Type 0} → (ℕ → Option A) → ℕ → ℕ → List A
collect f start zero = []
collect f start (suc n) =
    let rest = collect f (start + 1) n in elim (f start) [ none ↦ rest | some a ↦ a ∷ rest ]

-- A page, or what the entry keys hold for it.
unfoldable pub page_or_entries : State → ℕ → ℕ → ℕ → List ProgressEntry
unfolding collect
page_or_entries s player_id count page_index =
    let start = page_index * history_page_size + 1 in
    let end = min (start + history_page_size - 1) count in
    or_default (collect (s.history_entry player_id) start (end + 1 - start))
      (s.history_page player_id page_index)

-- The loop over `n` pages from `page_index` on.
unfoldable pub read_pages : State → ℕ → ℕ → ℕ → ℕ → List ProgressEntry
unfolding page_or_entries
read_pages s player_id count page_index zero = []
read_pages s player_id count page_index (suc n) =
    page_or_entries s player_id count page_index ++ read_pages s player_id count (page_index + 1) n

-- `div_ceil` by the page size.
abbrev pub total_pages : ℕ → ℕ
total_pages count = (count + 7) / history_page_size

-- The legacy vector is read only when the pages give nothing.
abbrev pub or_legacy : State → ℕ → List ProgressEntry → List ProgressEntry
or_legacy s player_id [] = or_default [] (s.history_vec player_id)
or_legacy s player_id (e ∷ es) = e ∷ es

unfoldable pub read_history_pages : State → ℕ → List ProgressEntry
unfolding read_pages
read_history_pages s player_id =
    let count = or_default 0 (s.history_counter player_id) in
    if count == 0
    then or_default [] (s.history_vec player_id)
    else or_legacy s player_id (read_pages s player_id count 0 (total_pages count))

unfoldable pub load_or_build_frontier : Host → State → ℕ → ℕ → Option (List FrontierPeak)
unfolding read_history_pages
load_or_build_frontier host s player_id prior_count = elim (s.history_frontier player_id) [
  | some existing ↦ some existing
  | none ↦
      if prior_count == 0
      then some []
      else build_frontier host (read_history_pages s player_id) prior_count
]
