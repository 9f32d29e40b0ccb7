-- ===== src/Registration/Directory/Calls.antt =====
-- The directory of contracts/registration/src/lib.rs and each call that writes to it.
use scout_off_contracts.Prelude.{
  ℕ, ◌≤◌, ◌<◌, ◌≡◌, refl, sym, ap, subst, Bool, true, false, Option, none, some, List, [],
  or_default, is_some, arith, length, Option-cases, inl, inr,
}
use scout_off_contracts.Shared.Level.{Level, unverified}
use scout_off_contracts.Shared.Types.{Address, Text, PlayerVitals}
use scout_off_contracts.Contract.{ok}
use scout_off_contracts.Registration.Types.{Env, State, Effect}
use scout_off_contracts.Registration.Storage.{
  has_id, log, composite_index_remove, level_index_remove,
}
use scout_off_contracts.Registration.Admin.{initialize, init_state}
use scout_off_contracts.Registration.Players.{
  new_profile, count_down, store_level, enter_level, leave_buckets, leave_level,
  player_index_remove, erase_player,
}
use scout_off_contracts.Registration.Seeding.{seeded_profile}
use scout_off_contracts.Registration.Migration.{mark_migration_nonce}
use scout_off_contracts.Registration.Indexes.{occurs, has_id-eq-ltb}
use scout_off_contracts.Registration.Register.{Registered}
use scout_off_contracts.Registration.Changes.{WasSet, WasErased, WasUpdated}
use scout_off_contracts.Registration.Seeded.{Seeded}
use scout_off_contracts.Registration.Directory.{IsDirectory}
use scout_off_contracts.Registration.Directory.Owned.{
  SameDirectory, IsDirectory-Same, IsListed-Same, entered-IsDirectory,
}
use scout_off_contracts.Registration.Directory.Changed.{
  known_level, store_level-IsDirectory, replaced-IsDirectory, erased-IsDirectory,
}

pub log-SameDirectory : (e : Effect) (s : State) → SameDirectory s (log e s)
log-SameDirectory e s = record {
  player = refl;
  player_by_wallet = refl;
  player_level = refl;
  player_index = refl;
  players_by_level_region = refl;
  players_by_level = refl;
  player_counter = refl;
  live_player_count = refl;
  initialized = refl;
}

pub log-IsDirectory : (e : Effect) {s : State} → IsDirectory s → IsDirectory (log e s)
log-IsDirectory e {s} = IsDirectory-Same (log-SameDirectory e s)

is_some-or_default : (o : Option Bool) → or_default false o ≡ true → is_some o ≡ true
is_some-or_default none e = cc e
is_some-or_default (some b) e = refl

module _ {s : State} (h : IsDirectory s) where
  -- Nothing above the counter is stored.
  unallocated : (id : ℕ) → or_default 0 s.player_counter < id → s.player id ≡ none
  unallocated id above = elim (Option-cases (s.player id)) [
    | inl missing ↦ missing
    | inr (p, found) ↦ absurd (omega (arith, above, (h.owned id p found).allocated))
  ]

  not_indexed : (id : ℕ) → s.player id ≡ none → has_id id (or_default [] s.player_index) ≡ false
  not_indexed id free =
      ground (arith, free, (h.listed id).indexed, has_id-eq-ltb id (or_default [] s.player_index))

  module _ (env : Env) {t : State} where
    pub Registered-IsDirectory :
        (wallet : Address) (vitals : PlayerVitals) (ipfs_hashes : List Text) (player_id : ℕ)
        → Registered env wallet vitals ipfs_hashes player_id s t
        → IsDirectory t
    Registered-IsDirectory wallet vitals ipfs_hashes player_id r =
        subst IsDirectory (sym r.written) (
          entered-IsDirectory (new_profile env wallet r.canon ipfs_hashes player_id) unverified
            (some player_id) _ s h (unallocated player_id (omega (arith, r.allotted)))
            r.checked.unowned (omega (arith, r.allotted)) (omega arith)
            (is_some-or_default s.initialized r.checked.initialized))

    -- A seeded id must have been allocated before.
    pub Seeded-IsDirectory :
        (wallet : Address) (vitals : PlayerVitals) (ipfs_hashes : List Text) (level : Level)
        (player_id registered_at updated_at : ℕ)
        → player_id ≤ or_default 0 s.player_counter
        → Seeded env wallet vitals ipfs_hashes level player_id registered_at updated_at s t
        → IsDirectory t
    Seeded-IsDirectory wallet vitals ipfs_hashes level player_id registered_at updated_at below r =
        subst IsDirectory (sym (r.written (not_indexed player_id r.free))) (
          entered-IsDirectory
            (seeded_profile wallet r.canon ipfs_hashes player_id registered_at updated_at) level
            s.player_counter s.player_reg_last_sent s h r.free r.unowned (omega arith) below
            (is_some-or_default s.initialized r.initialized))

    pub WasSet-IsDirectory :
        (player_id : ℕ) (level : Level) → WasSet env player_id level s t → IsDirectory t
    WasSet-IsDirectory player_id level r =
        let (known, stored) = known_level s h player_id r.stored r.found in
        subst IsDirectory (sym r.written) (
          log-IsDirectory _ (
            subst
              (λ k. IsDirectory (
                store_level player_id (record r.stored { updated_at = env.timestamp }) level
                  (enter_level level r.stored.vitals.region player_id
                    (leave_buckets k r.stored.vitals.region player_id s))))
              (sym stored)
              (store_level-IsDirectory s h player_id r.stored r.found
                (record r.stored { updated_at = env.timestamp }) refl refl refl known level
                stored)))

    pub WasErased-IsDirectory : (player_id : ℕ) → WasErased env player_id s t → IsDirectory t
    unfolding count_down leave_level player_index_remove erase_player composite_index_remove
        level_index_remove
    WasErased-IsDirectory player_id r =
        let (known, stored) = known_level s h player_id r.stored r.found in
        subst IsDirectory (sym r.written) (
          log-IsDirectory _ (
            subst
              (λ k. IsDirectory (
                count_down (
                  leave_level (or_default unverified k) r.stored.vitals.region player_id
                    (player_index_remove player_id (erase_player player_id r.stored.wallet s)))))
              (sym stored)
              (erased-IsDirectory s h player_id r.stored r.found known s.effects stored)))

    pub WasUpdated-IsDirectory :
        (player_id : ℕ) (ipfs_hashes : List Text)
        → WasUpdated env player_id ipfs_hashes s t
        → IsDirectory t
    WasUpdated-IsDirectory player_id ipfs_hashes r =
        replaced-IsDirectory s h player_id r.stored r.found
          (record r.stored { ipfs_hashes = ipfs_hashes; updated_at = env.timestamp }) refl refl refl
          t (cc r.written)

    -- A first initialisation finds nothing stored.
    pub initialize-IsDirectory :
        (admin : Address) {u : Unit {0}} → initialize env admin s ≡ ok (u, t) → IsDirectory t
    unfolding initialize init_state
    initialize-IsDirectory admin e =
        let fresh : is_some s.initialized ≡ false = ground arith in
        let nobody : (id : ℕ) → s.player id ≡ none = λ id. elim (Option-cases (s.player id)) [
          | inl missing ↦ missing
          | inr (p, found) ↦
              let there = (h.listed id).indexed in
              let absent : occurs id (or_default [] s.player_index) ≡ 0 =
                ap (occurs id) (h.unset fresh) in
              absurd (ground (arith, there, absent, found))
        ] in
        let result : t ≡ init_state admin s = ground arith in
        subst IsDirectory (sym result) (record {
          listed = λ id. IsListed-Same {s = s} refl refl refl refl refl id (h.listed id);
          owned = λ id p found. absurd (ground (arith, nobody id, found));
          wallets = λ w id found.
              (let (p, stored, mine) = h.wallets w id found in
                absurd (ground (arith, nobody id, stored)));
          counted = ap length (sym (h.unset fresh));
          unset = λ set. absurd (ground (arith, set));
        })

pub mark-SameDirectory :
    (wallet : Address) (nonce : ℕ) (s : State)
    → SameDirectory s (mark_migration_nonce wallet nonce s)
unfolding mark_migration_nonce
mark-SameDirectory wallet nonce s = record {
  player = refl;
  player_by_wallet = refl;
  player_level = refl;
  player_index = refl;
  players_by_level_region = refl;
  players_by_level = refl;
  player_counter = refl;
  live_player_count = refl;
  initialized = refl;
}
