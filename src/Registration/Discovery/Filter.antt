-- ===== src/Registration/Discovery/Filter.antt =====
-- `filter_players` of contracts/registration/src/lib.rs as a page of the players that match.
use scout_off_contracts.Prelude.{
  ℕ, ◌+◌, ◌≤◌, ◌≡◌, refl, sym, ap, ◌∙◌, Bool, true, false, ◌&&◌, Option, none, some, List, [], ◌∷◌,
  ◌++◌, length, drop, ◌==◌, leb, if◌then◌else◌, or_default, arith, min, max, bytes_eq, Bool-cases,
  inl, inr,
}
use scout_off_contracts.Prelude.Words.{u32_max}
use scout_off_contracts.Shared.Level.{
  Level, rank, level_eq, unverified, verified_identity, performance_milestones, elite_tier,
}
use scout_off_contracts.Shared.Types.{PlayerProfile, StoredPlayerProfile, Text}
use scout_off_contracts.Contract.{ok, err, trap}
use scout_off_contracts.Registration.Types.{Env, State}
use scout_off_contracts.Registration.Storage.{region_bucket}
use scout_off_contracts.Registration.Indexes.{occurs}
use scout_off_contracts.Registration.Directory.{IsDirectory, belongs}
use scout_off_contracts.Registration.Text.{normalize_filter_region, normalize_filter_position}
use scout_off_contracts.Registration.Queries.{Result, and_then}
use scout_off_contracts.Registration.Discovery.{
  Scan, scanning, stopped, scan_candidate, scan_ids, scan_levels, candidate, position_matches,
  level_gte, levels, scan_players, filter_players,
}
use scout_off_contracts.Registration.Discovery.Pages.{found, page_of, filter_scan}

-- The four tiers in their order, and whether a level is at least another.
abbrev pub tier : Level → ℕ
tier unverified = 0
tier verified_identity = 1
tier performance_milestones = 2
tier elite_tier = 3

abbrev pub high_enough : Level → Level → Bool
high_enough level min_level = leb (tier min_level) (tier level)

pub level_gte-eq-high_enough :
    (level min_level : Level) → level_gte level min_level ≡ high_enough level min_level
unfolding level_gte rank
level_gte-eq-high_enough level min_level = ground arith

-- The buckets of a region at the levels that are high enough, one after the other.
abbrev pub buckets : State → Text → Level → List Level → List ℕ
buckets s region min_level [] = []
buckets s region min_level (level ∷ rest) =
    (if level_gte level min_level then region_bucket s level region else [])
    ++ buckets s region min_level rest

-- The ids that a call reads, and its test of each.
abbrev pub searched : State → Text → Level → List ℕ
searched s region min_level =
    if length region == 0 then or_default [] s.player_index else buckets s region min_level levels

abbrev pub matches : Env → State → Text → Text → Level → ℕ → Result (Option PlayerProfile)
matches env s region position min_level =
    if length region == 0
    then candidate env s
        (λ profile. level_gte profile.level min_level && position_matches position profile)
    else candidate env s (position_matches position)

and_then_cong :
    {A B : Type 0} (o : Result A) (f g : A → Result B)
    → ((a : A) → f a ≡ g a)
    → and_then o f ≡ and_then o g
and_then_cong (ok a) f g same = same a
and_then_cong (err e) f g same = refl
and_then_cong trap f g same = refl

module _ (test : ℕ → Result (Option PlayerProfile)) (offset max_results : ℕ) where
  scan_ids-append :
      (xs ys : List ℕ) (scan : Scan)
      → scan_ids test offset max_results (xs ++ ys) scan
        ≡ and_then
            (scan_ids test offset max_results xs scan)
            (λ scanned. scan_ids test offset max_results ys scanned)
  unfolding scan_ids
  scan_ids-append [] ys scan = refl
  scan_ids-append (id ∷ xs) [] (stopped results cursor) = refl
  scan_ids-append (id ∷ xs) (y ∷ ys) (stopped results cursor) = refl
  scan_ids-append (id ∷ xs) ys (scanning results skipped) =
      next (test id) λ scan. scan_ids-append xs ys scan
    where
      next :
          (o : Result (Option PlayerProfile))
          → ((scan : Scan)
              → scan_ids test offset max_results (xs ++ ys) scan
                ≡ and_then
                    (scan_ids test offset max_results xs scan)
                    (λ scanned. scan_ids test offset max_results ys scanned))
          → and_then o (λ found. elim found [
            | none ↦ scan_ids test offset max_results (xs ++ ys) (scanning results skipped)
            | some profile ↦
                and_then
                  (scan_candidate offset max_results results skipped profile)
                  λ scan. scan_ids test offset max_results (xs ++ ys) scan
          ])
            ≡ and_then
                (and_then o (λ found. elim found [
                  | none ↦ scan_ids test offset max_results xs (scanning results skipped)
                  | some profile ↦
                      and_then
                        (scan_candidate offset max_results results skipped profile)
                        λ scan. scan_ids test offset max_results xs scan
                ]))
                (λ scanned. scan_ids test offset max_results ys scanned)
      next (ok none) ih = ih (scanning results skipped)
      next (ok (some p)) ih =
          elim (scan_candidate offset max_results results skipped p)
            as (λ c.
              and_then c (λ scan. scan_ids test offset max_results (xs ++ ys) scan)
              ≡ and_then (and_then c (λ scan. scan_ids test offset max_results xs scan))
                  (λ scanned. scan_ids test offset max_results ys scanned)) [
                    | ok scan ↦ ih scan
                    | err e ↦ refl
                    | trap ↦ refl
                  ]
      next (err e) ih = refl
      next trap ih = refl

  scan_levels-eq-scan_ids :
      (s : State) (region : Text) (min_level : Level) (rest : List Level) (scan : Scan)
      → scan_levels s test offset max_results region min_level rest scan
        ≡ scan_ids test offset max_results (buckets s region min_level rest) scan
  unfolding scan_levels scan_ids
  scan_levels-eq-scan_ids s region min_level [] scan = refl
  scan_levels-eq-scan_ids s region min_level (level ∷ rest) scan =
      elim (Bool-cases (level_gte level min_level)) [
        | inl high ↦
            let bucket = region_bucket s level region in
            rw high (
              and_then_cong (scan_ids test offset max_results bucket scan) _ _
                (λ scanned. scan_levels-eq-scan_ids s region min_level rest scanned)
              ∙ sym (scan_ids-append bucket (buckets s region min_level rest) scan))
        | inr low ↦ rw low (scan_levels-eq-scan_ids s region min_level rest scan)
      ]

module _ (env : Env) (s : State) (region position : Text) (min_level : Level) (offset : ℕ) where
  -- Both paths scan the searched ids.
  scan_players-eq-scan_ids :
      (max_results : ℕ)
      → scan_players env s region position min_level offset max_results
        ≡ scan_ids
            (matches env s region position min_level)
            offset
            max_results
            (searched s region min_level)
            (scanning [] 0)
  unfolding scan_players
  scan_players-eq-scan_ids max_results = elim (Bool-cases (length region == 0)) [
    | inl anywhere ↦ rw anywhere
    | inr there ↦ rw there (
        scan_levels-eq-scan_ids (candidate env s (position_matches position)) offset max_results s
          region min_level levels (scanning [] 0))
  ]

-- The page of the candidates that the searched ids have.
pub filter_players-eq-found :
    (env : Env) (s : State) (region position : Text) (min_level : Level) (offset limit : ℕ)
    (canon_region canon_position : Text) (ps : List PlayerProfile)
    → or_default false s.initialized ≡ true
    → normalize_filter_region region ≡ ok canon_region
    → normalize_filter_position position ≡ ok canon_position
    → offset + min (max limit 1) 50 ≤ u32_max
    → found
        (matches env s canon_region canon_position min_level)
        (searched s canon_region min_level)
      ≡ ok ps
    → filter_players env s region position min_level offset limit
      ≡ ok (page_of (offset + min (max limit 1) 50) (min (max limit 1) 50) [] (drop offset ps))
unfolding filter_players
filter_players-eq-found env s region position min_level offset limit canon_region canon_position ps
      initialized in_region in_position fits e =
    let max_results = min (max limit 1) 50 in
    let some_room : 1 ≤ max_results = omega arith in
    let page =
      filter_scan (matches env s canon_region canon_position min_level) offset max_results
        (searched s canon_region min_level) ps some_room fits e in
    let scanned =
      scan_players-eq-scan_ids env s canon_region canon_position min_level offset max_results in
    rw (initialized, in_region, in_position, scanned) page

occurs-append : (id : ℕ) (xs ys : List ℕ) → occurs id (xs ++ ys) ≡ occurs id xs + occurs id ys
occurs-append id [] ys = omega arith
occurs-append id (x ∷ xs) ys = omega (arith, occurs-append id xs ys)

-- A registered player of the region, at a level that is high enough.
abbrev pub is_wanted : Option StoredPlayerProfile → Option Level → Text → Level → Bool
is_wanted none k region min_level = false
is_wanted (some p) none region min_level = false
is_wanted (some p) (some k) region min_level =
    bytes_eq p.vitals.region region && high_enough k min_level

module _ (region : Text) (min_level : Level) where
  -- One bucket counts if its level is high enough.
  abbrev share : Option StoredPlayerProfile → Option Level → Level → ℕ
  share o k l = if level_gte l min_level then (if belongs o k l region then 1 else 0) else 0

  shares :
      (o : Option StoredPlayerProfile) (k : Option Level)
      → share o k unverified
          + (share o k verified_identity
              + (share o k performance_milestones + (share o k elite_tier + 0)))
        ≡ (if is_wanted o k region min_level then 1 else 0)
  unfolding level_gte rank level_eq
  shares none k = ground arith
  shares (some p) none = ground arith
  shares (some p) (some k) = ground arith

  occurs-buckets :
      (s : State) (id : ℕ) (rest : List Level) (level : Level)
      → IsDirectory s
      → occurs id (buckets s region min_level (level ∷ rest))
        ≡ share (s.player id) (s.player_level id) level
          + occurs id (buckets s region min_level rest)
  occurs-buckets s id rest level h =
      let bucket = (h.listed id).in_region level region in
      elim (Bool-cases (level_gte level min_level)) [
        | inl high ↦ rw high (
            occurs-append id (region_bucket s level region) (buckets s region min_level rest)
            ∙ ap (λ n. n + occurs id (buckets s region min_level rest)) bucket)
        | inr low ↦ rw low (omega arith)
      ]

-- Where the keys of the storage agree, a search of a region reads each registered player of that
-- region with at least the minimum level exactly once, and no other id.
pub searched-occurs :
    (s : State) (region : Text) (min_level : Level) (id : ℕ)
    → IsDirectory s
    → (length region == 0) ≡ false
    → occurs id (searched s region min_level)
      ≡ (if is_wanted (s.player id) (s.player_level id) region min_level then 1 else 0)
unfolding levels
searched-occurs s region min_level id h there =
    let u =
      occurs-buckets region min_level s id
        (verified_identity ∷ performance_milestones ∷ elite_tier ∷ []) unverified h in
    let v =
      occurs-buckets region min_level s id (performance_milestones ∷ elite_tier ∷ [])
        verified_identity h in
    let w = occurs-buckets region min_level s id (elite_tier ∷ []) performance_milestones h in
    let x = occurs-buckets region min_level s id [] elite_tier h in
    let total = shares region min_level (s.player id) (s.player_level id) in
    rw there (u ∙ (omega (arith, v, w, x, total)))
