-- ===== src/Progress/History/Invariant.antt =====
-- What the storage of the progress contract holds for a player whose history is a given list, and
-- what the readers return from it.
use scout_off_contracts.Prelude.{
  ℕ, zero, suc, ◌+◌, ◌-◌, ◌*◌, ◌≤◌, ◌<◌, ◌≡◌, refl, sym, subst, false, Option, none, some, List, [],
  ◌∷◌, min, arith, length, get_elem?, drop, drop_all, length-drop, or_default, Option-cases, inl,
  inr, ◌==◌,
}
use scout_off_contracts.Prelude.Words.{u32_max}
use scout_off_contracts.Progress.Types.{Hash, Host, State, ProgressEntry, FrontierPeak}
use scout_off_contracts.Progress.Hashing.{leaf_hashes}
use scout_off_contracts.Progress.Merkle.{mth_range}
use scout_off_contracts.Progress.Merkle.Frontier.{IsFrontier}
use scout_off_contracts.Progress.Storage.{
  page_or_entries, read_pages, total_pages, or_legacy, read_history_pages,
}
use scout_off_contracts.Progress.History.Chunks.{
  collect-eq-take, chunk, chunk-append-drop, take-min,
}

-- A page is not there yet, or holds its part of the history.
abbrev pub PageHolds : List ProgressEntry → ℕ → Option (List ProgressEntry) → Type 0
PageHolds history p none = Unit
PageHolds history p (some page) = page ≡ chunk history p

-- The frontier is not there yet, or is the frontier of the history's leaves.
abbrev pub FrontierHolds : Host → List ProgressEntry → Option (List FrontierPeak) → Type 0
FrontierHolds host history none = Unit
FrontierHolds host history (some ps) =
    IsFrontier host (leaf_hashes host history) ps (length history)

-- The root is the RFC 6962 root of the history's leaves.
abbrev pub RootHolds : Host → List ProgressEntry → Option Hash → Type 0
RootHolds host history none = length history ≡ 0
RootHolds host history (some root) =
    mth_range host (leaf_hashes host history) 0 (length history) ≡ some root

-- `history` is what the storage holds for the player. A player from before the pages or the frontier
-- has the entry keys, and neither of the other two.
pub record HasHistory (host : Host) (s : State) (player_id : ℕ) (history : List ProgressEntry)
    : Type 0 where
  pub counter : or_default 0 (s.history_counter player_id) ≡ length history
  pub bounded : length history ≤ u32_max
  pub entries : (i : ℕ) → s.history_entry player_id (suc i) ≡ get_elem? history i
  pub pages : (p : ℕ) → PageHolds history p (s.history_page player_id p)
  pub frontier : FrontierHolds host history (s.history_frontier player_id)
  pub root : RootHolds host history (s.history_root player_id)

module _ (s : State) (player_id : ℕ) (history : List ProgressEntry) where
  -- What `read_history_pages` relies on.
  pub record HasPages : Type 0 where
    pub counted : or_default 0 (s.history_counter player_id) ≡ length history
    pub keyed :
        (i : ℕ) → i < length history → s.history_entry player_id (suc i) ≡ get_elem? history i
    pub paged : (p : ℕ) → PageHolds history p (s.history_page player_id p)

  pub page_or_entries-eq-chunk :
      (p : ℕ)
      → HasPages
      → 8 * p < length history
      → page_or_entries s player_id (length history) p ≡ chunk history p
  unfolding page_or_entries
  page_or_entries-eq-chunk p h b = elim (Option-cases (s.history_page player_id p)) [
    | inl missing ↦
        let few : length (drop (8 * p) history) ≡ length history - 8 * p =
          length-drop (8 * p) history in
        let count = min (p * 8 + 1 + 8 - 1) (length history) + 1 - (p * 8 + 1) in
        rw (
          missing,
          collect-eq-take (s.history_entry player_id) history (p * 8 + 1) count (8 * p) h.keyed
              (omega arith) (omega arith),
          take-min 8 count (drop (8 * p) history) (omega arith),
        )
    | inr (page, e) ↦ rw e (subst (PageHolds history p) e (h.paged p))
  ]

  read_pages-eq-drop :
      (n p : ℕ)
      → HasPages
      → p + n ≡ total_pages (length history)
      → read_pages s player_id (length history) p n ≡ drop (8 * p) history
  unfolding read_pages
  read_pages-eq-drop zero p h e = sym (drop_all (8 * p) history (omega arith))
  read_pages-eq-drop (suc n) p h e = rw (
    page_or_entries-eq-chunk p h (omega arith),
    read_pages-eq-drop n (p + 1) h (omega arith),
    chunk-append-drop history p,
  )

  or_legacy_lem : 0 < length history → or_legacy s player_id history ≡ history
  or_legacy_lem h = or_legacy_cases history h
    where
      or_legacy_cases : (es : List ProgressEntry) → 0 < length es → or_legacy s player_id es ≡ es
      or_legacy_cases [] b = elim b [ ]
      or_legacy_cases (e ∷ es) b = refl

  -- A non-empty stored history reads back whole, whichever of its pages are there.
  pub read_history_pages-eq-history :
      HasPages → 0 < length history → read_history_pages s player_id ≡ history
  unfolding read_history_pages
  read_history_pages-eq-history h b =
      let some_entries : (length history == 0) ≡ false = ground arith in
      rw
        (
          h.counted,
          some_entries,
          read_pages-eq-drop (total_pages (length history)) 0 h (omega arith),
        )
        (or_legacy_lem b)

-- A call for one player leaves everything that is kept for another.
pub record SameFor (player_id : ℕ) (s t : State) : Type 0 where
  pub level : t.player_level player_id ≡ s.player_level player_id
  pub counter : t.history_counter player_id ≡ s.history_counter player_id
  pub entries : t.history_entry player_id ≡ s.history_entry player_id
  pub legacy : t.history_vec player_id ≡ s.history_vec player_id
  pub pages : t.history_page player_id ≡ s.history_page player_id
  pub root : t.history_root player_id ≡ s.history_root player_id
  pub frontier : t.history_frontier player_id ≡ s.history_frontier player_id
