-- ===== src/Progress/Queries/Since.antt =====
-- `get_history_since` and `get_history_since_v2` of contracts/progress/src/lib.rs.
use scout_off_contracts.Prelude.{
  ℕ, ◌-◌, ◌*◌, ◌<◌, ◌≡◌, refl, sym, ◌∙◌, ap, false, List, [], ◌∷◌, ◌++◌, arith, min, ltb, ◌==◌,
  length, take, drop, take_all, take-append-drop, or_default,
}
use scout_off_contracts.Progress.Types.{Host, State, ProgressEntry, HistorySince}
use scout_off_contracts.Progress.Storage.{total_pages}
use scout_off_contracts.Progress.History.Invariant.{HasHistory}
use scout_off_contracts.Progress.Queries.{
  clamp_limit, Scan, returned, going, scan_entries, newest_first, scan_pages, history_since,
  get_history_since_v2,
}
use scout_off_contracts.Progress.Queries.Scanning.{
  fresh, newest_first-append, all_fresh, met_old, met_limit, scan_entries-Ended,
  scan_pages-eq-scan_entries,
}

-- What the result is, by the way the scan ends.
abbrev result : ℕ → Scan → HistorySince
result count (returned r t) = record { entries = r; truncated = t }
result count (going r) = record {
  entries = r;
  truncated = ltb (min (total_pages count) 10) (total_pages count);
}

history_since_lem :
    (s : State) (player_id since limit : ℕ)
    → let count = or_default 0 (s.history_counter player_id) in
      (count == 0) ≡ false
      → history_since s player_id since limit
        ≡ result count (
            scan_pages s player_id count since
              (clamp_limit limit)
              (total_pages count)
              (min (total_pages count) 10)
              [])
unfolding history_since
history_since_lem s player_id since limit b =
    let count = or_default 0 (s.history_counter player_id) in
    rw b (
      by_scan count (
        scan_pages s player_id count since (clamp_limit limit) (total_pages count)
          (min (total_pages count) 10) []))
  where
    by_scan :
        (count : ℕ) (o : Scan)
        → (elim o [
          | returned r t ↦ record { entries = r; truncated = t }
          | going r ↦ record {
            entries = r;
            truncated = ltb (min (total_pages count) 10) (total_pages count);
          }
        ])
          ≡ result count o
    by_scan count (returned r t) = refl
    by_scan count (going r) = refl

module _ (host : Host) (s : State) (player_id : ℕ) (history : List ProgressEntry) (since limit : ℕ)
    (h : HasHistory host s player_id history) where
  abbrev pages : ℕ
  pages = total_pages (length history)

  -- The newest entries, those of the ten last pages, and the ones before them.
  abbrev newest : List ProgressEntry
  newest = newest_first (drop (8 * (pages - 10)) history)

  abbrev older : List ProgressEntry
  older = newest_first (take (8 * (pages - 10)) history)

  newest-append-older : newest ++ older ≡ newest_first history
  newest-append-older =
      sym (newest_first-append (take (8 * (pages - 10)) history) (drop (8 * (pages - 10)) history))
      ∙ ap newest_first (take-append-drop (8 * (pages - 10)) history)

  scanned :
      (most : ℕ)
      → scan_pages s player_id (length history) since most pages (min pages 10) []
        ≡ scan_entries since most newest []
  scanned most =
      let low : pages - min pages 10 ≡ pages - 10 = omega arith in
      let all = take_all (8 * pages) history (omega arith) in
      scan_pages-eq-scan_entries s player_id history since most
        (record { counted = h.counter; keyed = λ i b. h.entries i; paged = h.pages }) (min pages 10)
        pages [] (omega arith) (omega arith)
      ∙ rw (low, all)

  history_since-eq-result :
      0 < length history
      → history_since s player_id since limit
        ≡ result (length history) (scan_entries since (clamp_limit limit) newest [])
  history_since-eq-result b =
      let some_entries : (or_default 0 (s.history_counter player_id) == 0) ≡ false =
        ground (arith, h.counter) in
      rw
        (
          history_since_lem s player_id since limit some_entries,
          h.counter,
          scanned (clamp_limit limit),
        )
        refl

  result_entries :
      (result (length history) (scan_entries since (clamp_limit limit) newest [])).entries
      ≡ take (clamp_limit limit) (fresh since newest)
  result_entries = elim (scan_entries-Ended since (clamp_limit limit) newest [] (omega arith)) [
    | all_fresh e f l ↦ rw (e, f) (sym (take_all (clamp_limit limit) newest (omega (arith, l))))
    | met_old e f l ↦
        rw e (sym (take_all (clamp_limit limit) (fresh since newest) (omega (arith, l))))
    | met_limit e ↦
        let same : clamp_limit limit - 0 ≡ clamp_limit limit = omega arith in rw (e, same)
  ]

  result_complete :
      (result (length history) (scan_entries since (clamp_limit limit) newest [])).truncated ≡ false
      → (result (length history) (scan_entries since (clamp_limit limit) newest [])).entries
        ≡ fresh since (newest_first history)
  result_complete whole =
      elim (scan_entries-Ended since (clamp_limit limit) newest [] (omega arith)) [
        | all_fresh e f l ↦
            let few : ltb (min pages 10) pages ≡ false = rw e at whole in
            let none_left : pages - 10 ≡ 0 = ground (arith, few) in
            rw e (sym f ∙ ap (fresh since) (rw none_left refl))
        | met_old e f l ↦ rw e (sym (f older) ∙ ap (fresh since) newest-append-older)
        | met_limit e ↦ cc (rw e at whole)
      ]

-- On a stored history `get_history_since_v2` gives the entries that are not older than the timestamp, newest first, up to
-- the first older one, the limit (clamped to 1 to 50), and the end of the ten newest pages.
pub get_history_since_v2-eq-take :
    (host : Host) (s : State) (player_id : ℕ) (history : List ProgressEntry) (since limit : ℕ)
    → HasHistory host s player_id history
    → (get_history_since_v2 s player_id since limit).entries
      ≡ take
          (clamp_limit limit)
          (fresh since (newest_first (drop (8 * (total_pages (length history) - 10)) history)))
unfolding get_history_since_v2 history_since newest_first
get_history_since_v2-eq-take host s player_id [] since limit h =
    rw h.counter (sym (take_all (clamp_limit limit) [] (omega arith)))
get_history_since_v2-eq-take host s player_id (e ∷ es) since limit h =
    ap (λ (r : HistorySince). r.entries)
      (history_since-eq-result host s player_id (e ∷ es) since limit h (omega arith))
    ∙ result_entries host s player_id (e ∷ es) since limit h

-- When `get_history_since_v2` does not report a truncation on a stored history, no entry is missing: it gave every entry
-- of the whole history from the newest one down to the first that is older than the timestamp.
pub get_history_since_v2_complete :
    (host : Host) (s : State) (player_id : ℕ) (history : List ProgressEntry) (since limit : ℕ)
    → HasHistory host s player_id history
    → (get_history_since_v2 s player_id since limit).truncated ≡ false
    → (get_history_since_v2 s player_id since limit).entries ≡ fresh since (newest_first history)
unfolding get_history_since_v2 history_since newest_first
get_history_since_v2_complete host s player_id [] since limit h whole = rw h.counter refl
get_history_since_v2_complete host s player_id (e ∷ es) since limit h whole =
    let same = history_since-eq-result host s player_id (e ∷ es) since limit h (omega arith) in
    ap (λ (r : HistorySince). r.entries) same
    ∙ result_complete host s player_id (e ∷ es) since limit h
        (sym (ap (λ (r : HistorySince). r.truncated) same) ∙ whole)
