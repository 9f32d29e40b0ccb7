-- ===== src/Progress/History.antt =====
-- `record_progress_entry` of contracts/progress/src/lib.rs: one more entry in a player's history.
pub mod Chunks
pub mod Invariant
pub mod Commit
pub mod Record
use scout_off_contracts.Prelude.{
  ℕ, ◌+◌, ◌-◌, ◌*◌, Option, none, some, List, [], ◌∷◌, ◌++◌, or_default,
}
use scout_off_contracts.Shared.Level.{Level}
use scout_off_contracts.Shared.SafeMath.{safe_add_u32}
use scout_off_contracts.Contract.{get_state, modify, or_fail, or_trap, pure, ◌>>=◌, ◌>>◌}
use scout_off_contracts.Progress.Types.{
  Address, Hash, Host, Env, State, Call, ProgressEntry, overflow, update, update₂,
  history_page_size,
}
use scout_off_contracts.Progress.Hashing.{leaf_hash}
use scout_off_contracts.Progress.Merkle.{frontier_append, frontier_root}
use scout_off_contracts.Progress.Storage.{history_page_index, collect, load_or_build_frontier}

-- The entry key and the counter.
unfoldable pub store_entry : ℕ → ℕ → ProgressEntry → State → State
store_entry player_id index entry s = record s {
  history_entry = update₂ s.history_entry player_id index entry;
  history_counter = update s.history_counter player_id index;
}

-- The page that entry `index` goes to, with the entries before it. A page that is not there yet is
-- seeded from the entry keys below `index`.
unfoldable pub current_page : ℕ → ℕ → State → List ProgressEntry
unfolding collect history_page_index
current_page player_id index s =
    let page_index = history_page_index index in
    let start = page_index * history_page_size + 1 in
    let seeded = collect (s.history_entry player_id) start (index - start) in
    or_default seeded (s.history_page player_id page_index)

unfoldable pub append_page : ℕ → ℕ → ProgressEntry → State → State
unfolding history_page_index current_page
append_page player_id index entry s =
    let page = current_page player_id index s in
    record s {
      history_page =
          update₂ s.history_page player_id (history_page_index index) (page ++ entry ∷ []);
    }

-- The new leaf is folded onto the frontier of the `prior_count` entries before it.
unfoldable pub append_leaf : Host → ℕ → ℕ → ProgressEntry → Call Hash
unfolding load_or_build_frontier
append_leaf host player_id prior_count entry = do
  s ← get_state
  frontier ← or_trap (load_or_build_frontier host s player_id prior_count)
  frontier' ← or_trap (frontier_append host frontier (leaf_hash host entry))
  let root = frontier_root host frontier'
  modify (λ t. record t {
    history_root = update t.history_root player_id root;
    history_frontier = update t.history_frontier player_id frontier';
  })
  pure root

abbrev pub new_entry : Env → ℕ → Level → Level → Address → ℕ → ProgressEntry
new_entry env player_id old_level new_level updated_by milestone_ref = record {
  player_id = player_id;
  old_level = old_level;
  new_level = new_level;
  updated_by = updated_by;
  updated_at = env.timestamp;
  milestone_ref = milestone_ref;
  ledger_sequence = env.sequence;
}

unfoldable pub record_progress_entry : Env → ℕ → Level → Level → Address → ℕ → Call (Unit {0})
record_progress_entry env player_id old_level new_level updated_by milestone_ref = do
  s ← get_state
  let index = or_default 0 (s.history_counter player_id)
  next_index ← or_fail (safe_add_u32 index 1) overflow
  let entry = new_entry env player_id old_level new_level updated_by milestone_ref
  modify (store_entry player_id next_index entry)
  modify (append_page player_id next_index entry)
  append_leaf env.host player_id index entry
  pure tt
