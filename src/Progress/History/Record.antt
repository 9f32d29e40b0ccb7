-- ===== src/Progress/History/Record.antt =====
-- `record_progress_entry` of contracts/progress/src/lib.rs on a stored history.
use native.Mathlib.Decide.{ℕ_discrete}
use mathlib.Core.Path.{fun_ext}
use scout_off_contracts.Prelude.{
  ℕ, suc, ◌+◌, ◌-◌, ◌*◌, ◌/◌, ◌<◌, ◌≡◌, ◌≢◌, refl, sym, ◌∙◌, subst, false, Option, none, some, List,
  [], ◌∷◌, ◌++◌, arith, length, length-append, get_elem?, get_elem?-append_one, take, drop,
  length-drop, or_default, Option-cases, inl, inr, ◌==◌, if◌then◌else◌, ne→==, ==_iff, ==_refl,
}
use scout_off_contracts.Prelude.Words.{u32_max}
use scout_off_contracts.Shared.Level.{Level}
use scout_off_contracts.Shared.SafeMath.{safe_add_u32}
use scout_off_contracts.Contract.{ok, err, pure, >>=-eq-ok}
use scout_off_contracts.Progress.Types.{
  Address, Hash, Host, Env, State, ProgressEntry, FrontierPeak, update, overflow,
}
use scout_off_contracts.Progress.History.{
  store_entry, current_page, append_page, append_leaf, new_entry, record_progress_entry,
}
use scout_off_contracts.Progress.Storage.{history_page_index}
use scout_off_contracts.Progress.History.Chunks.{
  collect-eq-take, chunk-snoc_self, chunk-snoc_ne, take-min,
}
use scout_off_contracts.Progress.History.Invariant.{
  HasHistory, HasPages, PageHolds, FrontierHolds, RootHolds, SameFor,
}
use scout_off_contracts.Progress.History.Commit.{append_leaf-committed}

-- The page that the next entry goes to, read or seeded, holds the entries before it.
pub current_page-eq-take :
    (s : State) (player_id : ℕ) (history : List ProgressEntry) (p : ℕ)
    → ((i : ℕ) → i < length history → s.history_entry player_id (suc i) ≡ get_elem? history i)
    → PageHolds history p (s.history_page player_id p)
    → p ≡ length history / 8
    → current_page player_id (length history + 1) s
      ≡ take (length history - 8 * p) (drop (8 * p) history)
unfolding current_page
current_page-eq-take s player_id history p keyed paged e =
    let n = length history in
    let index : (n + 1 - 1) / 8 ≡ p = omega arith in
    elim (Option-cases (s.history_page player_id p)) [
      | inl missing ↦
          let count : n + 1 - (p * 8 + 1) ≡ n - 8 * p = omega arith in
          rw (index, missing, count)
            (collect-eq-take (s.history_entry player_id) history (p * 8 + 1) (n - 8 * p) (8 * p)
              keyed (omega arith) (omega arith))
      | inr (page, there) ↦
          let few : length (drop (8 * p) history) ≡ n - 8 * p = length-drop (8 * p) history in
          rw (index, there)
            (subst (PageHolds history p) there paged
              ∙ sym (take-min 8 (n - 8 * p) (drop (8 * p) history) (omega arith)))
    ]

PageHolds-snoc :
    (history : List ProgressEntry) (entry : ProgressEntry) (p : ℕ)
    (page : Option (List ProgressEntry))
    → p ≢ length history / 8
    → PageHolds history p page
    → PageHolds (history ++ entry ∷ []) p page
PageHolds-snoc history entry p none ne h = tt
PageHolds-snoc history entry p (some page) ne h = h ∙ sym (chunk-snoc_ne history entry p ne)

module _ (s : State) (player_id : ℕ) (history : List ProgressEntry) (entry : ProgressEntry) where
  -- The entry key, the counter and the page of the next entry.
  abbrev pub keyed_state : State
  keyed_state = store_entry player_id (length history + 1) entry s

  abbrev pub stored : State
  stored = append_page player_id (length history + 1) entry keyed_state

  stored_entries :
      ((i : ℕ) → s.history_entry player_id (suc i) ≡ get_elem? history i)
      → (i : ℕ) → stored.history_entry player_id (suc i) ≡ get_elem? (history ++ entry ∷ []) i
  unfolding store_entry append_page
  stored_entries h i = rw (get_elem?-append_one, h i) (ground arith)

  stored_before :
      ((i : ℕ) → s.history_entry player_id (suc i) ≡ get_elem? history i)
      → (i : ℕ) → i < length history
      → keyed_state.history_entry player_id (suc i) ≡ get_elem? history i
  unfolding store_entry
  stored_before h i b = ground (arith, h i)

  stored_page :
      (p : ℕ)
      → stored.history_page player_id p ≡ (
          if length history / 8 == p
          then some (current_page player_id (length history + 1) keyed_state ++ entry ∷ [])
          else s.history_page player_id p)
  unfolding store_entry append_page
  stored_page p =
      let index : history_page_index (length history + 1) ≡ length history / 8 =
        unfold history_page_index in omega arith in
      rw (index, ==_refl player_id)

  stored_pages :
      ((i : ℕ) → s.history_entry player_id (suc i) ≡ get_elem? history i)
      → ((p : ℕ) → PageHolds history p (s.history_page player_id p))
      → (p : ℕ) → PageHolds (history ++ entry ∷ []) p (stored.history_page player_id p)
  unfolding store_entry
  stored_pages keyed paged p = elim (ℕ_discrete (length history / 8) p) [
    | yes here ↦
        let now =
          current_page-eq-take keyed_state player_id history p (stored_before keyed) (paged p)
            (sym here) in
        rw (stored_page p, (==_iff _ _).1 here, now)
          (sym (chunk-snoc_self history entry p (sym here)))
    | no other ↦
        rw (stored_page p, ne→== _ _ other)
          (PageHolds-snoc history entry p (s.history_page player_id p) (λ e. other (sym e))
            (paged p))
  ]

  -- After the key and page writes the readers have the longer history.
  stored-HasPages :
      (host : Host)
      → HasHistory host s player_id history
      → HasPages stored player_id (history ++ entry ∷ [])
  unfolding store_entry append_page
  stored-HasPages host h = record {
    counted = rw (==_refl player_id, length-append history (entry ∷ []));
    keyed = λ i b. stored_entries h.entries i;
    paged = stored_pages h.entries h.pages;
  }

  stored-frontier : stored.history_frontier player_id ≡ s.history_frontier player_id
  unfolding store_entry append_page
  stored-frontier = refl

module _ (env : Env) (s : State) (player_id : ℕ) (history : List ProgressEntry)
    (old_level new_level : Level) (updated_by : Address) (milestone_ref : ℕ) where
  abbrev entry : ProgressEntry
  entry = new_entry env player_id old_level new_level updated_by milestone_ref

  record_steps :
      {root : Hash} {t : State}
      → or_default 0 (s.history_counter player_id) ≡ length history
      → length history < u32_max
      → append_leaf env.host player_id (length history) entry (stored s player_id history entry)
        ≡ ok (root, t)
      → record_progress_entry env player_id old_level new_level updated_by milestone_ref s
        ≡ ok (tt, t)
  unfolding record_progress_entry
  record_steps counter room commit =
      let fits : safe_add_u32 (length history) 1 ≡ some (length history + 1) =
        unfold safe_add_u32 in ground arith in
      rw (counter, fits)
        (>>=-eq-ok (append_leaf env.host player_id (length history) entry) (λ _. pure tt) commit)

  -- The state after the call, given the new root and frontier.
  abbrev pub recorded : Hash → List FrontierPeak → State
  recorded root ps = record (stored s player_id history entry) {
    history_root = update (stored s player_id history entry).history_root player_id root;
    history_frontier = update (stored s player_id history entry).history_frontier player_id ps;
  }

  recorded-HasHistory :
      (root : Hash) (ps : List FrontierPeak)
      → HasHistory env.host s player_id history
      → length history < u32_max
      → FrontierHolds env.host (history ++ entry ∷ []) (some ps)
      → RootHolds env.host (history ++ entry ∷ []) (some root)
      → HasHistory env.host (recorded root ps) player_id (history ++ entry ∷ [])
  recorded-HasHistory root ps h room f r =
      let readers = stored-HasPages s player_id history entry env.host h in
      record {
        counter = readers.counted;
        bounded = rw (length-append history (entry ∷ [])) (omega arith);
        entries = stored_entries s player_id history entry h.entries;
        pages = readers.paged;
        frontier = rw (==_refl player_id) f;
        root = rw (==_refl player_id) r;
      }

  -- On a stored history shorter than the largest `u32`, recording returns, and the stored history is
  -- the old one with the new entry at its end: counter, entry keys, pages, frontier and RFC 6962 root.
  pub record_progress_entry-HasHistory :
      HasHistory env.host s player_id history
      → length history < u32_max
      → (root : Hash) × (ps : List FrontierPeak) × (record_progress_entry env player_id old_level
            new_level updated_by milestone_ref s
          ≡ ok (tt, recorded root ps))
        × HasHistory env.host (recorded root ps) player_id (history ++ entry ∷ [])
  record_progress_entry-HasHistory h room =
      let (ps, root, commit, f, r) =
        append_leaf-committed env.host (stored s player_id history entry) player_id history entry
          (stored-HasPages s player_id history entry env.host h)
          (rw (stored-frontier s player_id history entry) h.frontier) room in
      (root, ps, record_steps h.counter room commit, recorded-HasHistory root ps h room f r)

  -- Nothing that is kept for another player changes.
  pub recorded-SameFor :
      (other : ℕ) (root : Hash) (ps : List FrontierPeak)
      → other ≢ player_id
      → SameFor other s (recorded root ps)
  unfolding store_entry append_page
  recorded-SameFor other root ps ne =
      let apart : (player_id == other) ≡ false = ne→== player_id other (λ e. ne (sym e)) in
      record {
        level = refl;
        counter = rw apart;
        entries = fun_ext λ i. rw apart;
        legacy = refl;
        pages = fun_ext λ p. rw apart;
        root = rw apart;
        frontier = rw apart;
      }

  -- At the largest counter the call fails with `Overflow`.
  pub record_progress_entry_overflow :
      HasHistory env.host s player_id history
      → length history ≡ u32_max
      → record_progress_entry env player_id old_level new_level updated_by milestone_ref s
        ≡ err overflow
  unfolding record_progress_entry
  record_progress_entry_overflow h full =
      let over : safe_add_u32 (length history) 1 ≡ none = unfold safe_add_u32 in ground arith in
      rw (h.counter, over)
