-- ===== src/Progress/History/Commit.antt =====
-- The Merkle part of an append: the frontier is loaded or rebuilt, and the new leaf is folded in.
use mathlib.Core.List.{map-append}
use native.Mathlib.Decide.{ℕ_discrete}
use scout_off_contracts.Prelude.{
  ℕ, suc, ◌+◌, ◌≤◌, ◌<◌, ◌≡◌, ◌≢◌, refl, ◌∙◌, ap, subst, none, some, List, [], ◌∷◌, ◌++◌, map, min,
  arith, length, length-append, length-map, get_elem?, get_elem?-snoc, take, Option-cases, inl, inr,
}
use scout_off_contracts.Prelude.Words.{u32_max}
use scout_off_contracts.Contract.{ok}
use scout_off_contracts.Progress.Types.{Hash, Host, State, ProgressEntry, FrontierPeak, update}
use scout_off_contracts.Progress.Hashing.{leaf_hash, leaf_hashes}
use scout_off_contracts.Progress.Merkle.{
  frontier_append, frontier_root, append_entries, build_frontier,
}
use scout_off_contracts.Progress.Merkle.Frontier.{
  IsFrontier, frontier_append-IsFrontier, IsFrontier-append, frontier_root-eq-mth_range,
}
use scout_off_contracts.Progress.Storage.{load_or_build_frontier, read_history_pages}
use scout_off_contracts.Progress.History.{append_leaf}
use scout_off_contracts.Progress.History.Chunks.{take-snoc_all}
use scout_off_contracts.Progress.History.Invariant.{
  HasPages, FrontierHolds, RootHolds, read_history_pages-eq-history,
}

append_leaf_steps :
    (host : Host) (s : State) (player_id prior : ℕ) (entry : ProgressEntry)
    {ps ps' : List FrontierPeak}
    → load_or_build_frontier host s player_id prior ≡ some ps
    → frontier_append host ps (leaf_hash host entry) ≡ some ps'
    → append_leaf host player_id prior entry s
      ≡ ok (
        frontier_root host ps',
        record s {
          history_root = update s.history_root player_id (frontier_root host ps');
          history_frontier = update s.history_frontier player_id ps';
        },
      )
unfolding append_leaf
append_leaf_steps host s player_id prior entry load app = rw (load, app)

module _ (host : Host) where
  append_entries-IsFrontier :
      (leaves : List Hash) (es : List ProgressEntry) (ps : List FrontierPeak) (n end : ℕ)
      → IsFrontier host leaves ps n
      → ((i : ℕ) → i < length es → get_elem? leaves (i + n) ≡ get_elem? (map (leaf_hash host) es) i)
      → n + length es ≡ end
      → end ≤ u32_max
      → (ps' : List FrontierPeak) × (append_entries host ps es ≡ some ps')
        × IsFrontier host leaves ps' end
  unfolding append_entries
  append_entries-IsFrontier leaves [] ps n end f h e b =
      let same : n ≡ end = omega arith in (ps, refl, subst (IsFrontier host leaves ps) same f)
  append_entries-IsFrontier leaves (x ∷ es) ps n end f h e b =
      let first : get_elem? leaves n ≡ some (leaf_hash host x) =
        let shift : n ≡ 0 + n = omega arith in ap (get_elem? leaves) shift ∙ h 0 (omega arith) in
      let (ps', eq, f') =
        frontier_append-IsFrontier host leaves ps n (leaf_hash host x) f first (omega arith) in
      let rest = λ (i : ℕ) (lt : i < length es).
        (let shift : i + (n + 1) ≡ suc i + n = omega arith in
          ap (get_elem? leaves) shift ∙ h (suc i) (omega arith)) in
      let (ps'', eq', f'') =
        append_entries-IsFrontier leaves es ps' (n + 1) end f' rest (omega arith) b in
      (ps'', rw eq eq', f'')

  -- Rebuilding from a stored history gives the frontier of its first `count` entries.
  pub build_frontier-IsFrontier :
      (full history : List ProgressEntry) (count : ℕ)
      → take (min count (length full)) full ≡ history
      → length history ≤ u32_max
      → (ps : List FrontierPeak) × (build_frontier host full count ≡ some ps)
        × IsFrontier host (leaf_hashes host history) ps (length history)
  unfolding build_frontier leaf_hashes
  build_frontier-IsFrontier full history count e b =
      let shifted = λ (i : ℕ) (lt : i < length history).
        (let shift : i + 0 ≡ i = omega arith in
          ap (get_elem? (map (leaf_hash host) history)) shift) in
      let (ps, eq, f) =
        append_entries-IsFrontier (map (leaf_hash host) history) history [] 0 (length history)
          (record { ascends = tt; covers = refl }) shifted (omega arith) b in
      (ps, rw e eq, f)

  load_or_build_frontier_rebuilds :
      (s : State) (player_id prior : ℕ)
      → s.history_frontier player_id ≡ none
      → prior ≢ 0
      → load_or_build_frontier host s player_id prior
        ≡ build_frontier host (read_history_pages s player_id) prior
  unfolding load_or_build_frontier
  load_or_build_frontier_rebuilds s player_id prior missing ne = ground arith

  module _ (s : State) (player_id : ℕ) (history : List ProgressEntry) (entry : ProgressEntry) where
    -- Loading, or rebuilding while the new entry is stored already, gives the frontier before it.
    load_or_build_frontier-IsFrontier :
        HasPages s player_id (history ++ entry ∷ [])
        → FrontierHolds host history (s.history_frontier player_id)
        → length history ≤ u32_max
        → (ps : List FrontierPeak) × (load_or_build_frontier host s player_id (length history)
            ≡ some ps)
          × IsFrontier host (leaf_hashes host history) ps (length history)
    unfolding load_or_build_frontier
    load_or_build_frontier-IsFrontier h f b = elim (Option-cases (s.history_frontier player_id)) [
      | inr (ps, e) ↦ (ps, ground arith, subst (FrontierHolds host history) e f)
      | inl missing ↦
          let full = history ++ entry ∷ [] in
          let long : length full ≡ length history + 1 = length-append history (entry ∷ []) in
          let bound : min (length history) (length full) ≡ length history = omega arith in
          let (ps, eq, f') =
            build_frontier-IsFrontier full history (length history)
              (rw bound (take-snoc_all history entry)) b in
          let read = read_history_pages-eq-history s player_id full h (omega arith) in
          elim (ℕ_discrete (length history) 0) [
            | yes none_before ↦ ([], ground arith, record { ascends = tt; covers = none_before })
            | no before ↦ (
              ps,
              load_or_build_frontier_rebuilds s player_id (length history) missing before
                  ∙ (rw read eq),
              f',
            )
          ]
    ]

    -- What the commit leaves: the new leaf's frontier and root, and all else as it was.
    abbrev pub committed : Hash → List FrontierPeak → State
    committed root ps = record s {
      history_root = update s.history_root player_id root;
      history_frontier = update s.history_frontier player_id ps;
    }

    pub append_leaf-committed :
        HasPages s player_id (history ++ entry ∷ [])
        → FrontierHolds host history (s.history_frontier player_id)
        → length history < u32_max
        → (ps : List FrontierPeak) × (root : Hash) × (append_leaf host player_id
              (length history)
              entry
              s
            ≡ ok (root, committed root ps))
          × FrontierHolds host (history ++ entry ∷ []) (some ps)
          × RootHolds host (history ++ entry ∷ []) (some root)
    unfolding leaf_hashes
    append_leaf-committed h f b =
        let (ps, load, before) = load_or_build_frontier-IsFrontier h f (omega arith) in
        let old = map (leaf_hash host) history in
        let leaf = leaf_hash host entry in
        let same : map (leaf_hash host) (history ++ entry ∷ []) ≡ old ++ leaf ∷ [] =
          map-append (leaf_hash host) history (entry ∷ []) in
        let count : length old ≡ length history = length-map (leaf_hash host) history in
        let here : get_elem? (old ++ leaf ∷ []) (length history) ≡ some leaf =
          rw (← count) (get_elem?-snoc old leaf) in
        let extended =
          IsFrontier-append host old (leaf ∷ []) ps (length history) (omega arith) before in
        let (ps', app, after) =
          frontier_append-IsFrontier host (old ++ leaf ∷ []) ps (length history) leaf extended here
            b in
        let all : length (history ++ entry ∷ []) ≡ length history + 1 =
          length-append history (entry ∷ []) in
        let rooted =
          frontier_root-eq-mth_range host (old ++ leaf ∷ []) ps' (length history + 1) after
            (omega arith) (omega arith) in
        (
          ps',
          frontier_root host ps',
          append_leaf_steps host s player_id (length history) entry load app,
          rw (same, all) after,
          rw (same, all) rooted,
        )
