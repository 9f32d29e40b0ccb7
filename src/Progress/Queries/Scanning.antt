-- ===== src/Progress/Queries/Scanning.antt =====
-- The loops of `history_since` in contracts/progress/src/lib.rs, over entries and over pages.
use mathlib.Core.List.{append-nil, append_assoc}
use scout_off_contracts.Prelude.{
  ℕ, zero, suc, ◌+◌, ◌-◌, ◌*◌, ◌≤◌, ◌<◌, ◌≡◌, refl, sym, ◌∙◌, ap, true, false, List, [], ◌∷◌, ◌++◌,
  arith, ltb, leb, if◌then◌else◌, length, length-append, length-take, take, drop, inl, inr,
  Bool-cases, drop_all, take_all,
}
use scout_off_contracts.Progress.Types.{State, ProgressEntry}
use scout_off_contracts.Progress.Storage.{total_pages}
use scout_off_contracts.Progress.History.Chunks.{chunk}
use scout_off_contracts.Progress.History.Invariant.{HasPages, page_or_entries-eq-chunk}
use scout_off_contracts.Progress.Queries.{
  Scan, returned, going, scan_entries, newest_first, scan_pages,
}

pub newest_first-append :
    (xs ys : List ProgressEntry) → newest_first (xs ++ ys) ≡ newest_first ys ++ newest_first xs
unfolding newest_first
newest_first-append [] ys = sym (append-nil (newest_first ys))
newest_first-append (x ∷ xs) ys =
    ap (λ t. t ++ x ∷ []) (newest_first-append xs ys)
    ∙ append_assoc (newest_first ys) (newest_first xs) (x ∷ [])

-- The entries before the first that is older than the timestamp.
abbrev pub fresh : ℕ → List ProgressEntry → List ProgressEntry
fresh since [] = []
fresh since (e ∷ es) = if ltb e.updated_at since then [] else e ∷ fresh since es

module _ (since limit : ℕ) where
  -- A scan goes on over the next entries from what it has.
  abbrev resume : List ProgressEntry → Scan → Scan
  resume es (returned r t) = returned r t
  resume es (going r) = scan_entries since limit es r

  scan_entries-append :
      (xs ys r : List ProgressEntry)
      → scan_entries since limit (xs ++ ys) r ≡ resume ys (scan_entries since limit xs r)
  unfolding scan_entries
  scan_entries-append [] ys r = refl
  scan_entries-append (x ∷ xs) ys r =
      let rest = scan_entries-append xs ys (r ++ x ∷ []) in
      elim (Bool-cases (ltb x.updated_at since)) [
        | inl old ↦ rw old
        | inr new ↦ elim (Bool-cases (leb limit (length r))) [
          | inl full ↦ rw (new, full)
          | inr room ↦ rw (new, room) rest
        ]
      ]

  -- The three ways a scan over `es` ends.
  pub data Ended (es r : List ProgressEntry) : Type 0 where
    all_fresh :
        scan_entries since limit es r ≡ going (r ++ es)
        → fresh since es ≡ es
        → length r + length es ≤ limit
        → Ended es r
    met_old :
        scan_entries since limit es r ≡ returned (r ++ fresh since es) false
        → ((more : List ProgressEntry) → fresh since (es ++ more) ≡ fresh since es)
        → length r + length (fresh since es) ≤ limit
        → Ended es r
    met_limit :
        scan_entries since limit es r
          ≡ returned (r ++ take (limit - length r) (fresh since es)) true
        → Ended es r

  pub scan_entries-Ended : (es r : List ProgressEntry) → length r ≤ limit → Ended es r
  unfolding scan_entries
  scan_entries-Ended [] r b = all_fresh (ap going (sym (append-nil r))) refl (omega arith)
  scan_entries-Ended (e ∷ es) r b = elim (Bool-cases (ltb e.updated_at since)) [
    | inl old ↦
        met_old (rw old (ap (λ t. returned t false) (sym (append-nil r)))) (λ more. rw old)
          (rw old (omega arith))
    | inr new ↦ elim (Bool-cases (leb limit (length r))) [
      | inl full ↦
          let none_left : limit - length r ≡ 0 = ground arith in
          met_limit (rw (new, full, none_left) (ap (λ t. returned t true) (sym (append-nil r))))
      | inr room ↦
          let longer = length-append r (e ∷ []) in
          let one_less : limit - length r ≡ suc (limit - length (r ++ e ∷ [])) =
            ground (arith, longer) in
          let shift = append_assoc r (e ∷ []) in
          elim (scan_entries-Ended es (r ++ e ∷ []) (ground (arith, longer))) [
            | all_fresh s f l ↦
                all_fresh (rw (new, room) (s ∙ ap going (shift es))) (rw new (ap (λ t. e ∷ t) f))
                  (omega (arith, longer, l))
            | met_old s f l ↦
                met_old (rw (new, room) (s ∙ ap (λ t. returned t false) (shift (fresh since es))))
                  (λ more. rw new (ap (λ t. e ∷ t) (f more))) (rw new (omega (arith, longer, l)))
            | met_limit s ↦
                met_limit (rw (new, room, one_less) (s ∙ ap (λ t. returned t true) (shift _)))
          ]
    ]
  ]

-- A part of a history, from one page to another.
abbrev pub pages_between : List ProgressEntry → ℕ → ℕ → List ProgressEntry
pages_between history low high = drop (8 * low) (take (8 * high) history)

take_add : (m k : ℕ) (xs : List ProgressEntry) → take (m + k) xs ≡ take m xs ++ take k (drop m xs)
take_add zero k xs = ap (λ n. take n xs) (omega arith)
take_add (suc m) k [] =
    let step : suc m + k ≡ suc (m + k) = omega arith in rw step (sym (take_all k [] (omega arith)))
take_add (suc m) k (x ∷ xs) =
    let step : suc m + k ≡ suc (m + k) = omega arith in rw step (ap (λ t. x ∷ t) (take_add m k xs))

drop-append :
    (m : ℕ) (xs ys : List ProgressEntry) → m ≤ length xs → drop m (xs ++ ys) ≡ drop m xs ++ ys
drop-append zero xs ys b = refl
drop-append (suc m) [] ys b = elim b [ ]
drop-append (suc m) (x ∷ xs) ys b = drop-append m xs ys (omega arith)

pages_between-suc :
    (history : List ProgressEntry) (low high : ℕ)
    → low ≤ high
    → 8 * high < length history
    → pages_between history low (suc high) ≡ pages_between history low high ++ chunk history high
pages_between-suc history low high less inside =
    let longer : 8 * suc high ≡ 8 * high + 8 = omega arith in
    let whole = length-take (8 * high) history in
    rw (longer, take_add (8 * high) 8 history)
      (drop-append (8 * low) (take (8 * high) history) (chunk history high) (omega (arith, whole)))

module _ (s : State) (player_id : ℕ) (history : List ProgressEntry) (since limit : ℕ)
    (h : HasPages s player_id history) where
  next_page :
      (o : Scan) (n bound low : ℕ)
      → ((r : List ProgressEntry)
          → scan_pages s player_id (length history) since limit low n r
            ≡ scan_entries since limit (newest_first (pages_between history (bound - n) bound)) r)
      → (elim o [
        | returned r t ↦ returned r t
        | going r ↦ scan_pages s player_id (length history) since limit low n r
      ])
        ≡ resume since limit (newest_first (pages_between history (bound - n) bound)) o
  next_page (returned r t) n bound low rest = refl
  next_page (going r) n bound low rest = rest r

  -- The page-by-page scan is one scan over the pages that it visits.
  pub scan_pages-eq-scan_entries :
      (n bound : ℕ) (r : List ProgressEntry)
      → n ≤ bound
      → bound ≤ total_pages (length history)
      → scan_pages s player_id (length history) since limit bound n r
        ≡ scan_entries since limit (newest_first (pages_between history (bound - n) bound)) r
  unfolding scan_pages scan_entries newest_first
  scan_pages-eq-scan_entries zero bound r b c =
      let same : bound - 0 ≡ bound = omega arith in
      let whole = length-take (8 * bound) history in
      rw (same, drop_all (8 * bound) (take (8 * bound) history) (omega (arith, whole)))
  scan_pages-eq-scan_entries (suc n) zero r b c = absurd (omega arith)
  scan_pages-eq-scan_entries (suc n) (suc bound) r b c =
      let page = page_or_entries-eq-chunk s player_id history bound h (omega arith) in
      let low : suc bound - suc n ≡ bound - n = omega arith in
      let one : suc bound - 1 ≡ bound = omega arith in
      let parts = pages_between-suc history (bound - n) bound (omega arith) (omega arith) in
      rw
        (
          scan_pages,
          one,
          page,
          low,
          parts,
          newest_first-append (pages_between history (bound - n) bound) (chunk history bound),
          scan_entries-append since limit (newest_first (chunk history bound))
              (newest_first (pages_between history (bound - n) bound)) r,
        )
        (next_page (scan_entries since limit (newest_first (chunk history bound)) r) n bound
          (suc bound - 1)
          (λ r'. rw one (scan_pages-eq-scan_entries n bound r' (omega arith) (omega arith))))
