-- ===== src/Registration/Levelled.antt =====
-- What `set_player_level` of contracts/registration/src/lib.rs leaves behind, key by key.
use scout_off_contracts.Prelude.{
  ℕ, ◌≡◌, ◌≢◌, ◌∙◌, refl, sym, ap, true, false, some, List, [], or_default, ==_refl, ne→==,
  bytes_eq_refl, Option-cases, Bool-cases, inl, inr,
}
use scout_off_contracts.Shared.Level.{Level, level_eq, level_eq_iff}
use scout_off_contracts.Shared.Types.{Address, StoredPlayerProfile}
use scout_off_contracts.Contract.{ok}
use scout_off_contracts.Registration.Types.{Env, State}
use scout_off_contracts.Registration.Storage.{
  region_bucket, level_bucket, composite_index_add, composite_index_remove, level_index_add,
  level_index_remove, set_region_bucket, set_level_bucket,
}
use scout_off_contracts.Registration.Players.{
  set_player_level, store_level, enter_level, leave_buckets, leave_level,
}
use scout_off_contracts.Registration.Indexes.{occurs}
use scout_off_contracts.Registration.Directory.{IsDirectory}
use scout_off_contracts.Registration.Directory.Calls.{WasSet-IsDirectory}
use scout_off_contracts.Registration.Changes.{WasSet, set_player_level-WasSet}

-- The authorised progress contract set the level of a stored player: the level and the profile with a
-- new time are stored, and the other players' are as they were.
pub record IsLevelled (env : Env) (player_id : ℕ) (level : Level) (s t : State) : Type 0 where
  pub caller : Address
  pub stored : StoredPlayerProfile
  pub configured : s.progress_contract ≡ some caller
  pub authorized : env.authorized caller ≡ true
  pub found : s.player player_id ≡ some stored
  pub moved : t.player_level player_id ≡ some level
  pub stamped : t.player player_id ≡ some (record stored { updated_at = env.timestamp })
  pub other_levels : (other : ℕ) → other ≢ player_id → t.player_level other ≡ s.player_level other
  pub other_players : (other : ℕ) → other ≢ player_id → t.player other ≡ s.player other

module _ (env : Env) (player_id : ℕ) (level : Level) (s t : State) where
  WasSet-IsLevelled : WasSet env player_id level s t → IsLevelled env player_id level s t
  unfolding store_level enter_level leave_buckets leave_level composite_index_add level_index_add
      composite_index_remove level_index_remove set_region_bucket set_level_bucket
  WasSet-IsLevelled w = record {
    caller = w.caller;
    stored = w.stored;
    configured = w.configured;
    authorized = w.authorized;
    found = w.found;
    moved = ap (λ (x : State). x.player_level player_id) w.written ∙ (rw (==_refl player_id));
    stamped = ap (λ (x : State). x.player player_id) w.written ∙ (rw (==_refl player_id));
    other_levels = λ other ne.
        (let apart = ne→== player_id other (λ e. ne (sym e)) in
          ap (λ (x : State). x.player_level other) w.written
          ∙ elim (Option-cases (s.player_level player_id)) [
            | inl missing ↦ rw (apart, missing)
            | inr (k, known) ↦ rw (apart, known)
          ]);
    other_players = λ other ne.
        (let apart = ne→== player_id other (λ e. ne (sym e)) in
          ap (λ (x : State). x.player other) w.written
          ∙ elim (Option-cases (s.player_level player_id)) [
            | inl missing ↦ rw (apart, missing)
            | inr (k, known) ↦ rw (apart, known)
          ]);
  }

  pub set_player_level-IsLevelled :
      set_player_level env player_id level s ≡ ok (tt, t) → IsLevelled env player_id level s t
  set_player_level-IsLevelled e =
      WasSet-IsLevelled (set_player_level-WasSet env player_id s t level e)

-- The ids under one key of the level indexes.
abbrev pub at_region : State → Level → List ℕ → List ℕ
at_region s l region = or_default [] (s.players_by_level_region l region)

abbrev pub at_tier : State → Level → List ℕ
at_tier s l = or_default [] (s.players_by_level l)

-- The player is once in the two indexes of the level, in no index of another one, and the other
-- players are in each index as often as before.
pub record IsMoved (player_id : ℕ) (level : Level) (region : List ℕ) (s t : State) : Type 0 where
  pub in_region : occurs player_id (at_region t level region) ≡ 1
  pub in_tier : occurs player_id (at_tier t level) ≡ 1
  pub out_of_regions : (l : Level) (r : List ℕ) → l ≢ level → occurs player_id (at_region t l r) ≡ 0
  pub out_of_tiers : (l : Level) → l ≢ level → occurs player_id (at_tier t l) ≡ 0
  pub other_regions :
      (other : ℕ) (l : Level) (r : List ℕ)
      → other ≢ player_id
      → occurs other (at_region t l r) ≡ occurs other (at_region s l r)
  pub other_tiers :
      (other : ℕ) (l : Level)
      → other ≢ player_id
      → occurs other (at_tier t l) ≡ occurs other (at_tier s l)

level_eq_ne : (a b : Level) → b ≢ a → level_eq a b ≡ false
level_eq_ne a b ne = elim (Bool-cases (level_eq a b)) [
  | inl same ↦ absurd (ne (sym ((level_eq_iff a b).0 same)))
  | inr apart ↦ apart
]

-- Where the keys of the storage agree, a `set_player_level` that returned was authorised by the
-- configured progress contract and found the player. It stored the level, and the player is in the two
-- indexes of that level once and in no index of another; no other player's level, profile or places in
-- the level indexes changed.
pub set_player_level-IsMoved :
    (env : Env) (player_id : ℕ) (level : Level) (s t : State)
    → IsDirectory s
    → set_player_level env player_id level s ≡ ok (tt, t)
    → (x : IsLevelled env player_id level s t) × IsMoved player_id level x.stored.vitals.region s t
unfolding region_bucket level_bucket
set_player_level-IsMoved env player_id level s t h e =
    let w = set_player_level-WasSet env player_id s t level e in
    let x = set_player_level-IsLevelled env player_id level s t e in
    let h' = WasSet-IsDirectory h env player_id level w in
    let mine = h'.listed player_id in
    let same : level_eq level level ≡ true = (level_eq_iff level level).1 refl in
    (
      x,
      record {
        in_region =
            mine.in_region level x.stored.vitals.region
            ∙ (rw (x.stamped, x.moved, same, bytes_eq_refl x.stored.vitals.region));
        in_tier = mine.in_level level ∙ (rw (x.stamped, x.moved, same));
        out_of_regions =
            λ l r ne. mine.in_region l r ∙ (rw (x.stamped, x.moved, level_eq_ne level l ne));
        out_of_tiers = λ l ne. mine.in_level l ∙ (rw (x.stamped, x.moved, level_eq_ne level l ne));
        other_regions = λ other l r ne.
            (h'.listed other).in_region l r
            ∙ ((rw (x.other_players other ne, x.other_levels other ne))
                ∙ sym ((h.listed other).in_region l r));
        other_tiers = λ other l ne.
            (h'.listed other).in_level l
            ∙ ((rw (x.other_players other ne, x.other_levels other ne))
                ∙ sym ((h.listed other).in_level l));
      },
    )
