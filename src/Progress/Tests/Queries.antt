-- ===== src/Progress/Tests/Queries.antt =====
-- The views on the contract with one entry.
use scout_off_contracts.Prelude.{
  ℕ, or_default, zero, suc, ◌*◌, ◌-◌, ◌∙◌, ap, sym, subst, replicate, ◌≡◌, refl, true, false, none,
  some, List, [], ◌∷◌, ◌++◌, arith, length, get_elem?, take, drop, inl, inr, length-take,
  length-append,
}
use scout_off_contracts.Contract.{ok}
use scout_off_contracts.Progress.Types.{HistoryProofStep, ProgressEntry}
use scout_off_contracts.Progress.Storage.{
  read_history_pages, page_or_entries, get_current_level, total_pages,
}
use scout_off_contracts.Progress.Hashing.{leaf_bytes, leaf_hash, level_code, to_be_bytes}
use scout_off_contracts.Progress.Hashing.Encoding.{Fits}
use scout_off_contracts.Progress.History.Invariant.{
  HasHistory, HasPages, read_history_pages-eq-history,
}
use scout_off_contracts.Shared.Level.{next}
use scout_off_contracts.Shared.SafeMath.{safe_add_u32}
use scout_off_contracts.Progress.Merkle.{
  frontier_append, frontier_root, fold_peaks, compute_root_from_proof, replay_steps,
}
use scout_off_contracts.Progress.History.{
  record_progress_entry, append_leaf, append_page, store_entry,
}
use scout_off_contracts.Progress.Levels.{
  advance_level, advance_level_authorized, advance_one_tier, check_milestone, sync_registration,
  set_level,
}
use scout_off_contracts.Progress.Queries.{
  hash_eq, history_since, scan_pages, scan_entries, clamp_limit, get_history_proof,
  verify_history_proof, get_progress_history_page, newest_first, get_history_since_v2,
}
use scout_off_contracts.Progress.Queries.Proofs.{get_history_proof-verifies}
use scout_off_contracts.Progress.Queries.Descent.{TreeInput, leaf_input, node_input, NoCollision}
use scout_off_contracts.Progress.Queries.Soundness.{verify_history_proof_sound}
use scout_off_contracts.Progress.Queries.Pages.{
  get_progress_history_page-eq-take, walk, walk-eq-snapshot,
}
use scout_off_contracts.Progress.Queries.Scanning.{fresh}
use scout_off_contracts.Progress.Queries.Since.{
  get_history_since_v2-eq-take, get_history_since_v2_complete,
}
use scout_off_contracts.Progress.Tests.{
  test_host, test_env, one_entry, first_entry, one_entry-PlayerHolds,
}
use scout_off_contracts.Progress.Tests.Merkle.{first_entry-Fits}

abbrev history : List ProgressEntry
history = first_entry ∷ []

one_entry-HasHistory : HasHistory test_host one_entry 1 history
one_entry-HasHistory = one_entry-PlayerHolds.stored

get_history_proof-verifies_example :
    (proof : List HistoryProofStep) × (get_history_proof test_env 1 1 one_entry
      ≡ ok (proof, one_entry))
    × (verify_history_proof test_env 1 first_entry proof one_entry ≡ ok (true, one_entry))
get_history_proof-verifies_example =
    get_history_proof-verifies test_env one_entry 1 history 0 first_entry one_entry-PlayerHolds
      (omega arith) refl

the_entry : (e : ProgressEntry) → get_elem? history 0 ≡ some e → first_entry ≡ e
the_entry e ex = ap (or_default first_entry) ex

-- The one leaf is all that the tree hashes.
one_input : (y : List ℕ) → TreeInput test_host history y → leaf_bytes test_host first_entry ≡ y
one_input y (leaf_input zero e ex same) = ap (leaf_bytes test_host) (the_entry e ex) ∙ sym same
one_input y (leaf_input (suc i) e ex same) = cc ex
one_input y (node_input start mid end left right lo hi inside el er same) = absurd (omega arith)

history-NoCollision : NoCollision test_host history first_entry []
history-NoCollision x y (inl replayed) t same = replayed ∙ one_input y t
history-NoCollision x y (inr none_replayed) t same = absurd none_replayed

history-Fits : (i : ℕ) (e : ProgressEntry) → get_elem? history i ≡ some e → Fits e
history-Fits zero e ex = subst Fits (the_entry e ex) first_entry-Fits
history-Fits (suc i) e ex = cc ex

wide : (x : List ℕ) → length (test_host.sha256 x) ≡ 32
wide x = omega (arith, length-take 32 (x ++ replicate 32 0), length-append x (replicate 32 0))

accepted : verify_history_proof test_env 1 first_entry [] one_entry ≡ ok (true, one_entry)
unfolding verify_history_proof advance_level advance_level_authorized check_milestone
    advance_one_tier next get_current_level record_progress_entry safe_add_u32 append_leaf
    append_page store_entry frontier_append sync_registration set_level hash_eq
    compute_root_from_proof leaf_hash leaf_bytes level_code to_be_bytes frontier_root fold_peaks
    replay_steps
accepted = refl

verify_history_proof_sound_example : (i : ℕ) × (get_elem? history i ≡ some first_entry)
verify_history_proof_sound_example =
    verify_history_proof_sound test_env one_entry 1 history first_entry [] wide (λ a b e. cc e)
      history-NoCollision tt first_entry-Fits history-Fits one_entry-HasHistory accepted

get_progress_history_page-eq-take_example :
    get_progress_history_page one_entry 1 0 10 ≡ take (clamp_limit 10) (drop 0 history)
get_progress_history_page-eq-take_example =
    get_progress_history_page-eq-take test_host one_entry 1 history 0 10 one_entry-HasHistory
      (omega arith)

walk-eq-snapshot_example : walk (λ i. one_entry) 1 0 2 0 none none ≡ history
walk-eq-snapshot_example =
    walk-eq-snapshot test_host (λ i. one_entry) 1 0 history (λ i. []) (λ i. one_entry-HasHistory)
      refl (omega arith)

get_history_since_v2-eq-take_example :
    (get_history_since_v2 one_entry 1 100 5).entries
    ≡ take (clamp_limit 5) (fresh 100 (newest_first (drop (8 * (total_pages 1 - 10)) history)))
get_history_since_v2-eq-take_example =
    get_history_since_v2-eq-take test_host one_entry 1 history 100 5 one_entry-HasHistory

whole : (get_history_since_v2 one_entry 1 100 5).truncated ≡ false
unfolding get_history_since_v2 history_since scan_pages scan_entries newest_first page_or_entries
    advance_level advance_level_authorized check_milestone advance_one_tier next get_current_level
    record_progress_entry safe_add_u32 append_leaf append_page store_entry frontier_append
    sync_registration set_level
whole = refl

get_history_since_v2_complete_example :
    (get_history_since_v2 one_entry 1 100 5).entries ≡ fresh 100 (newest_first history)
get_history_since_v2_complete_example =
    get_history_since_v2_complete test_host one_entry 1 history 100 5 one_entry-HasHistory whole

one_entry-HasPages : HasPages one_entry 1 history
one_entry-HasPages = record {
  counted = one_entry-HasHistory.counter;
  keyed = λ i b. one_entry-HasHistory.entries i;
  paged = one_entry-HasHistory.pages;
}

read_history_pages-eq-history_example : read_history_pages one_entry 1 ≡ history
read_history_pages-eq-history_example =
    read_history_pages-eq-history one_entry 1 history one_entry-HasPages (omega arith)
