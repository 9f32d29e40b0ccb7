-- ===== src/Registration/Discovery/Pages.antt =====
-- The pages of `filter_players` of contracts/registration/src/lib.rs.
use mathlib.Core.List.{append-nil, append_assoc}
use scout_off_contracts.Prelude.{
  ℕ, zero, suc, ◌+◌, ◌≤◌, ◌≡◌, refl, sym, ap, ◌∙◌, subst, true, false, Option, none, some, List, [],
  ◌∷◌, ◌++◌, length, take, drop, ltb, leb, ◌==◌, if◌then◌else◌, arith, Bool-cases, inl, inr,
  length-append, take_all,
}
use scout_off_contracts.Prelude.Words.{u32_max}
use scout_off_contracts.Shared.Types.{PlayerProfile}
use scout_off_contracts.Contract.{ok, err, trap}
use scout_off_contracts.Registration.Types.{FilterResult}
use scout_off_contracts.Registration.Queries.{Result, and_then}
use scout_off_contracts.Registration.Discovery.{
  Scan, scanning, stopped, scan_candidate, scan_ids, filter_result,
}

-- The profiles that a test finds, in order; a trap of the test is one of the whole.
abbrev pub found : (ℕ → Result (Option PlayerProfile)) → List ℕ → Result (List PlayerProfile)
found test [] = ok []
found test (id ∷ ids) = and_then (test id) λ o. elim o [
  | none ↦ found test ids
  | some profile ↦ and_then (found test ids) λ rest. ok (profile ∷ rest)
]

-- The scan of a list of candidates from given local variables: what is left to skip is skipped, the
-- page is filled, and one more candidate stops it.
abbrev pub scan_list : ℕ → ℕ → List PlayerProfile → Scan → Scan
scan_list offset max_results [] scan = scan
scan_list offset max_results (p ∷ ps) (stopped results cursor) = stopped results cursor
scan_list offset max_results (p ∷ ps) (scanning results skipped) =
    if ltb skipped offset
    then scan_list offset max_results ps (scanning results (skipped + 1))
    else if leb max_results (length results)
    then stopped results (skipped + length results)
    else scan_list offset max_results ps (scanning (results ++ p ∷ []) skipped)

-- The local variables of a scan: the page is not over-full, and nothing is taken before the skipping
-- is done.
abbrev pub Within : ℕ → ℕ → Scan → Type 0
Within offset max_results (scanning results skipped) =
    (length results ≤ max_results) × (skipped ≤ offset)
Within offset max_results (stopped results cursor) = Unit

scan_list_stopped :
    (offset max_results : ℕ) (ps : List PlayerProfile) (results : List PlayerProfile) (cursor : ℕ)
    → scan_list offset max_results ps (stopped results cursor) ≡ stopped results cursor
scan_list_stopped offset max_results [] results cursor = refl
scan_list_stopped offset max_results (p ∷ ps) results cursor = refl

module _ (test : ℕ → Result (Option PlayerProfile)) (offset max_results : ℕ) where
  scan_ids_stopped :
      (ids : List ℕ) (results : List PlayerProfile) (cursor : ℕ)
      → scan_ids test offset max_results ids (stopped results cursor) ≡ ok (stopped results cursor)
  unfolding scan_ids
  scan_ids_stopped [] results cursor = refl
  scan_ids_stopped (id ∷ ids) results cursor = refl

  module _ (fits : offset + max_results ≤ u32_max) where
    module _ (id : ℕ) (ids : List ℕ)
        (ih : (ps : List PlayerProfile) (scan : Scan)
          → found test ids ≡ ok ps
          → Within offset max_results scan
          → scan_ids test offset max_results ids scan
            ≡ ok (scan_list offset max_results ps scan)) where
      scan-one :
          (results : List PlayerProfile) (skipped : ℕ)
          → Within offset max_results (scanning results skipped)
          → (p : PlayerProfile) (rest : List PlayerProfile) → found test ids ≡ ok rest
          → and_then
              (scan_candidate offset max_results results skipped p)
              (λ scan. scan_ids test offset max_results ids scan)
            ≡ ok (scan_list offset max_results (p ∷ rest) (scanning results skipped))
      unfolding scan_candidate
      scan-one results skipped w p rest f = elim (Bool-cases (ltb skipped offset)) [
        | inl skip ↦
            let step = ih rest (scanning results (skipped + 1)) f (w.0, ground (arith, skip)) in
            rw (skip, step)
        | inr keep ↦ elim (Bool-cases (leb max_results (length results))) [
          | inl full ↦
              let room : ltb u32_max (skipped + length results) ≡ false =
                ground (arith, w.0, w.1, fits) in
              rw (keep, full, room, scan_ids_stopped ids results (skipped + length results))
          | inr open_page ↦
              let step =
                ih rest (scanning (results ++ p ∷ []) skipped) f
                  (ground (arith, open_page, length-append results (p ∷ [])), w.1) in
              rw (keep, open_page, step)
        ]
      ]

      found-cons :
          (p : PlayerProfile) (ps : List PlayerProfile) (o : Result (List PlayerProfile))
          → found test ids ≡ o
          → and_then o (λ rest. ok (p ∷ rest)) ≡ ok ps
          → (rest : List PlayerProfile) × (found test ids ≡ ok rest) × (p ∷ rest ≡ ps)
      found-cons p ps (ok rest) f g = (rest, f, cc g)
      found-cons p ps (err x) f g = cc g
      found-cons p ps trap f g = cc g

      scan-next :
          (ps results : List PlayerProfile) (skipped : ℕ)
          → found test (id ∷ ids) ≡ ok ps
          → Within offset max_results (scanning results skipped)
          → (o : Result (Option PlayerProfile)) → test id ≡ o
          → scan_ids test offset max_results (id ∷ ids) (scanning results skipped)
            ≡ ok (scan_list offset max_results ps (scanning results skipped))
      unfolding scan_ids
      scan-next ps results skipped e w (ok none) h =
          let step = ih ps (scanning results skipped) (rw h at e) w in rw (h, step)
      scan-next ps results skipped e w (ok (some p)) h =
          let (rest, f, same) = found-cons p ps (found test ids) refl (rw h at e) in
          subst
            (λ x.
              scan_ids test offset max_results (id ∷ ids) (scanning results skipped)
              ≡ ok (scan_list offset max_results x (scanning results skipped)))
            same (rw (h, scan-one results skipped w p rest f))
      scan-next ps results skipped e w (err x) h = cc (rw h at e)
      scan-next ps results skipped e w trap h = cc (rw h at e)

    -- The loop over ids is the scan of what its test finds.
    pub scan_ids-eq-scan_list :
        (ids : List ℕ) (ps : List PlayerProfile) (scan : Scan)
        → found test ids ≡ ok ps
        → Within offset max_results scan
        → scan_ids test offset max_results ids scan ≡ ok (scan_list offset max_results ps scan)
    unfolding scan_ids
    scan_ids-eq-scan_list [] ps scan e w =
        let nothing : [] ≡ ps = cc e in ap (λ x. ok (scan_list offset max_results x scan)) nothing
    scan_ids-eq-scan_list (id ∷ ids) ps (stopped results cursor) e w =
        ap ok (sym (scan_list_stopped offset max_results ps results cursor))
    scan_ids-eq-scan_list (id ∷ ids) ps (scanning results skipped) e w =
        scan-next id ids (scan_ids-eq-scan_list ids) ps results skipped e w (test id) refl

-- The page of a list of candidates: `max_results` of them from the offset on, and the cursor of the
-- next page if any are left.
abbrev pub page_of : ℕ → ℕ → List PlayerProfile → List PlayerProfile → FilterResult
page_of cursor room results ps = record {
  profiles = results ++ take room ps;
  next_cursor = if ltb room (length ps) then cursor else 0;
  has_more = ltb room (length ps);
}

module _ (offset max_results : ℕ) (some_room : 1 ≤ max_results) where
  fill_page :
      (room : ℕ) (ps results : List PlayerProfile)
      → length results + room ≡ max_results
      → filter_result (scan_list offset max_results ps (scanning results offset))
        ≡ page_of (offset + max_results) room results ps
  unfolding filter_result
  fill_page zero [] results e = rw (append-nil results)
  fill_page (suc room) [] results e =
      let done : ltb (suc room) 0 ≡ false = ground arith in rw (append-nil results, done)
  fill_page zero (p ∷ ps) results e =
      let skip : ltb offset offset ≡ false = ground arith in
      let full : leb max_results (length results) ≡ true = ground (arith, e) in
      let cursor : offset + length results ≡ offset + max_results = omega (arith, e) in
      let more : ltb 0 (suc (length ps)) ≡ true = ground arith in
      let goes_on : (offset + max_results == 0) ≡ false = ground (arith, some_room) in
      rw (skip, full, cursor, append-nil results, more, goes_on)
  fill_page (suc room) (p ∷ ps) results e =
      let taken : length (results ++ p ∷ []) + room ≡ max_results =
        omega (arith, e, length-append results (p ∷ [])) in
      let rest = fill_page room ps (results ++ p ∷ []) taken in
      let skip : ltb offset offset ≡ false = ground arith in
      let open_page : leb max_results (length results) ≡ false = ground (arith, e) in
      let left : ltb (suc room) (suc (length ps)) ≡ ltb room (length ps) = ground arith in
      rw (skip, open_page, left)
        (rest
          ∙ ap
              (λ x. record {
                profiles = x;
                next_cursor = if ltb room (length ps) then offset + max_results else 0;
                has_more = ltb room (length ps);
              })
              (append_assoc results (p ∷ []) (take room ps)))

  skip_page :
      (k : ℕ) (ps : List PlayerProfile) (skipped : ℕ)
      → skipped + k ≡ offset
      → filter_result (scan_list offset max_results ps (scanning [] skipped))
        ≡ page_of (offset + max_results) max_results [] (drop k ps)
  unfolding filter_result
  skip_page zero ps skipped e =
      let same : skipped ≡ offset = omega (arith, e) in
      subst
        (λ n.
          filter_result (scan_list offset max_results ps (scanning [] n))
          ≡ page_of (offset + max_results) max_results [] ps)
        (sym same) (fill_page max_results ps [] (omega arith))
  skip_page (suc k) [] skipped e =
      let done : ltb max_results 0 ≡ false = ground arith in
      rw (take_all {A = PlayerProfile} max_results [] (omega arith), done)
  skip_page (suc k) (p ∷ ps) skipped e =
      let skip : ltb skipped offset ≡ true = ground (arith, e) in
      rw (skip, skip_page k ps (skipped + 1) (omega (arith, e)))

-- The scan of ids from the start gives the page of what its test finds.
pub filter_scan :
    (test : ℕ → Result (Option PlayerProfile)) (offset max_results : ℕ) (ids : List ℕ)
    (ps : List PlayerProfile)
    → 1 ≤ max_results
    → offset + max_results ≤ u32_max
    → found test ids ≡ ok ps
    → and_then
        (scan_ids test offset max_results ids (scanning [] 0))
        (λ scan. ok (filter_result scan))
      ≡ ok (page_of (offset + max_results) max_results [] (drop offset ps))
filter_scan test offset max_results ids ps some_room fits e =
    let scanned =
      scan_ids-eq-scan_list test offset max_results fits ids ps (scanning [] 0) e
        (omega arith, omega arith) in
    ap (λ o. and_then o (λ scan. ok (filter_result scan))) scanned
    ∙ ap ok (skip_page offset max_results some_room offset ps 0 (omega arith))
