-- ===== src/Progress/Seeding/Purge.antt =====
-- What `purge_player_data` of contracts/progress/src/lib.rs removes, and what it leaves.
use mathlib.Core.Path.{fun_ext}
use scout_off_contracts.Prelude.{
  ℕ, zero, suc, ◌+◌, ◌-◌, ◌≡◌, ◌≢◌, refl, sym, ◌∙◌, ap, Bool, true, false, arith, ◌/◌, min, ltb,
  List, ◌∷◌, is_some, ◌==◌, ne→==, if◌then◌else◌, or_default,
}
use scout_off_contracts.Prelude.Words.{u32_max, checked_add}
use scout_off_contracts.Shared.Admin.{require_admin}
use scout_off_contracts.Contract.{ok, lift-inv, or_trap-inv}
use scout_off_contracts.Progress.Types.{
  Effect, player_data_purged, Env, State, not_initialized, remove₂, history_page_size,
}
use scout_off_contracts.Progress.History.Invariant.{SameFor}
use scout_off_contracts.Progress.Levels.Frame.{SameFor-effects, SameFor-refl, SameFor-trans}
use scout_off_contracts.Progress.Seeding.{
  counted, purge_player_keys, purge_entries, purge_counter, purge_player_data,
}

-- What a step of the erasure for a player keeps.
pub record Kept (player_id : ℕ) (s t : State) : Type 0 where
  pub others : (other : ℕ) → other ≢ player_id → SameFor other s t
  pub frontiers : t.history_frontier ≡ s.history_frontier

Kept-trans :
    {player_id : ℕ} {s t u : State} → Kept player_id s t → Kept player_id t u → Kept player_id s u
Kept-trans a b = record {
  others = λ other ne. SameFor-trans (a.others other ne) (b.others other ne);
  frontiers = b.frontiers ∙ a.frontiers;
}

Kept-refl : (player_id : ℕ) (s : State) → Kept player_id s s
Kept-refl player_id s = record { others = λ other ne. SameFor-refl s; frontiers = refl }

module _ (player_id : ℕ) where
  purge_player_keys-Kept : (s : State) → Kept player_id s (purge_player_keys player_id s).1
  unfolding purge_player_keys
  purge_player_keys-Kept s = record {
    others = λ other ne.
        (let apart : (player_id == other) ≡ false = ne→== player_id other (λ e. ne (sym e)) in
          record {
            level = rw apart refl;
            counter = refl;
            entries = refl;
            legacy = rw apart refl;
            pages = refl;
            root = rw apart refl;
            frontier = refl;
          });
    frontiers = refl;
  }

  purge_keys-Kept :
      (idx page : ℕ) (s : State)
      → Kept player_id s (record s {
        history_entry = remove₂ s.history_entry player_id idx;
        history_page = remove₂ s.history_page player_id page;
      })
  purge_keys-Kept idx page s = record {
    others = λ other ne.
        (let apart : (player_id == other) ≡ false = ne→== player_id other (λ e. ne (sym e)) in
          record {
            level = refl;
            counter = refl;
            entries = fun_ext λ i. rw apart;
            legacy = refl;
            pages = fun_ext λ i. rw apart;
            root = refl;
            frontier = refl;
          });
    frontiers = refl;
  }

  purge_entries-Kept :
      (idx n removed : ℕ) (s : State)
      → Kept player_id s (purge_entries player_id idx n (removed, s)).1
  unfolding purge_entries
  purge_entries-Kept idx zero removed s = Kept-refl player_id s
  purge_entries-Kept idx (suc n) removed s =
      let page = (idx - 1) / history_page_size in
      let u = record s {
        history_entry = remove₂ s.history_entry player_id idx;
        history_page = remove₂ s.history_page player_id page;
      } in
      let count =
        counted (is_some (s.history_page player_id page))
          (counted (is_some (s.history_entry player_id idx)) removed) in
      Kept-trans (purge_keys-Kept idx page s) (purge_entries-Kept (idx + 1) n count u)

  purge_counter-Kept :
      (more : Bool) (removed : ℕ) (s : State)
      → Kept player_id s (purge_counter player_id more (removed, s)).1
  unfolding purge_counter
  purge_counter-Kept true removed s = Kept-refl player_id s
  purge_counter-Kept false removed s = record {
    others = λ other ne.
        (let apart : (player_id == other) ≡ false = ne→== player_id other (λ e. ne (sym e)) in
          record {
            level = refl;
            counter = rw apart refl;
            entries = refl;
            legacy = refl;
            pages = refl;
            root = refl;
            frontier = refl;
          });
    frontiers = refl;
  }

  first-Kept :
      (b : Bool) (s : State)
      → Kept player_id s (if b then purge_player_keys player_id s else (0, s)).1
  first-Kept true s = purge_player_keys-Kept s
  first-Kept false s = Kept-refl player_id s

  Kept-effects :
      (s t : State) (effects : List Effect)
      → t ≡ record s { effects = effects }
      → Kept player_id s t
  Kept-effects s t effects e = record {
    others = λ other ne. SameFor-effects s t effects e;
    frontiers = ap (λ (u : State). u.history_frontier) e;
  }

-- An erasure that returned changed nothing that is kept for another player, and no player's frontier:
-- it leaves the frontier of the erased player.
pub purge_player_data-Kept :
    (env : Env) (player_id cursor : ℕ) (s t : State) (result : ℕ × Bool)
    → purge_player_data env player_id cursor s ≡ ok (result, t)
    → Kept player_id s t
unfolding purge_player_data
purge_player_data-Kept env player_id cursor s t result e =
    let (admin, checked, e₁) =
      lift-inv (require_admin s.admin env.authorized not_initialized) _ {s = s} e in
    let (start, e₂, e₃) = or_trap-inv (checked_add u32_max cursor 1) _ {s = s} e₁ in
    let (page_end, e₄, e₅) = or_trap-inv (checked_add u32_max start 50) _ {s = s} e₃ in
    let total = or_default 0 (s.history_counter player_id) in
    let (past_total, e₆, e₇) = or_trap-inv (checked_add u32_max total 1) _ {s = s} e₅ in
    let end = min page_end past_total in
    let first : ℕ × State = if cursor == 0 then purge_player_keys player_id s else (0, s) in
    let entries = purge_entries player_id start (end - start) first in
    let more = ltb (end - 1) total in
    let done = purge_counter player_id more entries in
    let result_state : t ≡ record (done.1) {
      effects = player_data_purged admin player_id done.0 more ∷ done.1.effects;
    } =
      ground (arith, e₇) in
    Kept-trans (first-Kept player_id (cursor == 0) s) (
      Kept-trans (purge_entries-Kept player_id start (end - start) first.0 first.1) (
        Kept-trans (purge_counter-Kept player_id more entries.0 entries.1)
          (Kept-effects player_id done.1 t _ result_state)))
