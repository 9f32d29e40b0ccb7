-- ===== src/Progress/Queries/Pages.antt =====
-- The paged views of contracts/progress/src/lib.rs: `get_progress_history_page`, and a client that
-- walks a history with the cursor of `get_history_page_with_cursor`.
use native.Mathlib.Decide.{dec_lt}
use mathlib.Core.List.{append-nil}
use scout_off_contracts.Prelude.{
  ℕ, zero, suc, ◌+◌, ◌-◌, ◌≤◌, ◌<◌, ◌≡◌, refl, sym, ◌∙◌, ap, subst, true, false, Option, none, some,
  List, [], ◌∷◌, ◌++◌, arith, min, ltb, leb, ◌==◌, if◌then◌else◌, length, length-append,
  length-drop, get_elem?, get_elem?-append_lt, take, drop, drop_all, take_all, take-append-drop,
  or_default,
}
use scout_off_contracts.Prelude.Words.{u32_max, sat_add32}
use scout_off_contracts.Progress.Types.{Host, State, ProgressEntry}
use scout_off_contracts.Progress.Storage.{collect}
use scout_off_contracts.Progress.History.Chunks.{collect-eq-take, take-min, drop-drop}
use scout_off_contracts.Progress.History.Invariant.{HasHistory}
use scout_off_contracts.Progress.Queries.{
  clamp_limit, get_progress_history_page, get_history_page_with_cursor,
}

module _ (host : Host) (s : State) (player_id : ℕ) (base more : List ProgressEntry)
    (offset limit : ℕ) (h : HasHistory host s player_id (base ++ more)) where
  -- The keys below the length of the first part read that part.
  keyed : (j : ℕ) → j < length base → s.history_entry player_id (suc j) ≡ get_elem? base j
  keyed j b = h.entries j ∙ get_elem?-append_lt base more j b

  abbrev end : ℕ
  end = min (sat_add32 (suc offset) (clamp_limit limit) - 1) (length base)

  end_lem : length base < u32_max → end ≡ min (offset + clamp_limit limit) (length base)
  end_lem room = ground arith

  collect-eq-page :
      offset < length base
      → length base < u32_max
      → collect (s.history_entry player_id) (suc offset) (end + 1 - suc offset)
        ≡ take (clamp_limit limit) (drop offset base)
  collect-eq-page inside room =
      let e = end_lem room in
      let left : length (drop offset base) ≡ length base - offset = length-drop offset base in
      collect-eq-take (s.history_entry player_id) base (suc offset) (end + 1 - suc offset) offset
        keyed refl (omega (arith, e))
      ∙ take-min (clamp_limit limit) (end + 1 - suc offset) (drop offset base)
          (omega (arith, e, left))

  -- A page of the cursor from an index of the snapshot.
  get_history_page_with_cursor-eq :
      offset < length base
      → length base < u32_max
      → get_history_page_with_cursor s player_id (some (length base)) (some (suc offset)) limit ≡ (
        take (clamp_limit limit) (drop offset base),
        (if leb (length base) (offset + clamp_limit limit)
            then 0
            else suc (offset + clamp_limit limit)),
        length base,
      )
  unfolding get_history_page_with_cursor
  get_history_page_with_cursor-eq inside room =
      let counted : or_default 0 (s.history_counter player_id) ≡ length base + length more =
        h.counter ∙ length-append base more in
      let snapshot : min (length base) (length base + length more) ≡ length base = omega arith in
      let a : (length base == 0) ≡ false = ground arith in
      let b : (suc offset == 0) ≡ false = ground arith in
      let c : ltb (length base) (suc offset) ≡ false = ground arith in
      let next : (if leb (length base) end then 0 else sat_add32 end 1) ≡ (
          if leb (length base) (offset + clamp_limit limit)
          then 0
          else suc (offset + clamp_limit limit)) =
        ground (arith, end_lem room) in
      rw (counted, snapshot, a, b, c, collect-eq-page inside room, next)

  -- The page at an offset.
  get_progress_history_page-eq :
      length more ≡ 0
      → offset < length base
      → length base < u32_max
      → get_progress_history_page s player_id offset limit
        ≡ take (clamp_limit limit) (drop offset base)
  unfolding get_progress_history_page
  get_progress_history_page-eq none_more inside room =
      let counted : or_default 0 (s.history_counter player_id) ≡ length base =
        h.counter ∙ length-append base more ∙ (omega (arith, none_more)) in
      let a : leb (length base) offset ≡ false = ground arith in
      let start : sat_add32 offset 1 ≡ suc offset = ground arith in
      rw (counted, a, start) (collect-eq-page inside room)

-- `get_progress_history_page` is the `limit` entries from `offset` on, with `limit` clamped to 1
-- to 50, for a stored history shorter than the largest `u32`.
pub get_progress_history_page-eq-take :
    (host : Host) (s : State) (player_id : ℕ) (history : List ProgressEntry) (offset limit : ℕ)
    → HasHistory host s player_id history
    → length history < u32_max
    → get_progress_history_page s player_id offset limit
      ≡ take (clamp_limit limit) (drop offset history)
unfolding get_progress_history_page
get_progress_history_page-eq-take host s player_id history offset limit h room =
    elim (dec_lt offset (length history)) [
      | no past ↦
          let a : leb (length history) offset ≡ true = ground arith in
          rw (h.counter, a, drop_all offset history (omega arith))
            (sym (take_all (clamp_limit limit) [] (omega arith)))
      | yes inside ↦
          get_progress_history_page-eq host s player_id history [] offset limit
            (subst (HasHistory host s player_id) (sym (append-nil history)) h) refl inside room
    ]

module _ (states : ℕ → State) (player_id limit : ℕ) where
  -- A client that calls `get_history_page_with_cursor` again with the snapshot and the next index that
  -- it got, until that index is 0. `states i` is the storage at its call `i`.
  abbrev pub walk : ℕ → ℕ → Option ℕ → Option ℕ → List ProgressEntry
  walk zero i snapshot next = []
  walk (suc fuel) i snapshot next =
      let page = get_history_page_with_cursor (states i) player_id snapshot next limit in
      let rest = walk fuel (suc i) (some page.2) (some page.1) in
      if page.1 == 0 then page.0 else page.0 ++ rest

module _ (host : Host) (states : ℕ → State) (player_id limit : ℕ) (base : List ProgressEntry)
    (more : ℕ → List ProgressEntry)
    (all : (i : ℕ) → HasHistory host (states i) player_id (base ++ more i))
    (room : length base < u32_max) where
  walk-eq-drop :
      (fuel i offset : ℕ)
      → offset < length base
      → length base ≤ offset + fuel
      → walk states player_id limit fuel i (some (length base)) (some (suc offset))
        ≡ drop offset base
  walk-eq-drop zero i offset inside enough = absurd (omega arith)
  walk-eq-drop (suc fuel) i offset inside enough =
      let page =
        get_history_page_with_cursor-eq host (states i) player_id base (more i) offset limit (all i)
          inside room in
      let left : length (drop offset base) ≡ length base - offset = length-drop offset base in
      elim (dec_lt (offset + clamp_limit limit) (length base)) [
        | no last ↦
            let a : leb (length base) (offset + clamp_limit limit) ≡ true = ground arith in
            rw (page, a) (take_all (clamp_limit limit) (drop offset base) (omega (arith, left)))
        | yes further ↦
            let a : leb (length base) (offset + clamp_limit limit) ≡ false = ground arith in
            let b : (suc (offset + clamp_limit limit) == 0) ≡ false = ground arith in
            let rest =
              walk-eq-drop fuel (suc i) (offset + clamp_limit limit) further (omega arith) in
            rw
              (
                page,
                a,
                b,
                rest,
                drop-drop offset (clamp_limit limit) (offset + clamp_limit limit) base refl,
              )
              (take-append-drop (clamp_limit limit) (drop offset base))
      ]

  -- The first call, without a cursor, is the call with the cursor at the start of the history.
  first_page :
      more 0 ≡ []
      → get_history_page_with_cursor (states 0) player_id none none limit
        ≡ get_history_page_with_cursor (states 0) player_id (some (length base)) (some 1) limit
  unfolding get_history_page_with_cursor
  first_page start =
      let counted : or_default 0 ((states 0).history_counter player_id) ≡ length base =
        (all 0).counter ∙ ap (λ m. length (base ++ m)) start ∙ ap length (append-nil base) in
      let same : min (length base) (length base) ≡ length base = omega arith in rw (counted, same)

no_page :
    (s : State) (player_id limit : ℕ)
    → or_default 0 (s.history_counter player_id) ≡ 0
    → get_history_page_with_cursor s player_id none none limit ≡ ([], 0, 0)
unfolding get_history_page_with_cursor
no_page s player_id limit e = rw e

-- A cursor walk that starts when the history is `base`, shorter than the largest `u32`, returns `base`,
-- each entry once and in order, in at most `length base + 1` calls, although the history may grow at
-- its end between the calls.
pub walk-eq-snapshot :
    (host : Host) (states : ℕ → State) (player_id limit : ℕ) (base : List ProgressEntry)
    (more : ℕ → List ProgressEntry)
    → ((i : ℕ) → HasHistory host (states i) player_id (base ++ more i))
    → more 0 ≡ []
    → length base < u32_max
    → walk states player_id limit (suc (length base)) 0 none none ≡ base
walk-eq-snapshot host states player_id limit [] more all start room =
    rw (no_page (states 0) player_id limit ((all 0).counter ∙ ap length start))
walk-eq-snapshot host states player_id limit (e ∷ es) more all start room =
    let base = e ∷ es in
    rw (first_page host states player_id limit base more all room start) (
      walk-eq-drop host states player_id limit base more all room (suc (length base)) 0 0
        (omega arith) (omega arith))
