-- ===== src/Registration/Directory/Changed.antt =====
-- The writes of contracts/registration/src/lib.rs that change or erase a stored player, and the
-- directory.
use scout_off_contracts.Prelude.{
  ℕ, ◌-◌, ◌≤◌, ◌≡◌, refl, sym, ap, ◌∙◌, subst, some, List, [], ◌==◌, or_default, arith, Bool-cases,
  Option-cases, inl, inr, update, update-inv, remove-inv, ==_iff,
}
use scout_off_contracts.Shared.Level.{Level}
use scout_off_contracts.Shared.Types.{Address, StoredPlayerProfile}
use scout_off_contracts.Registration.Types.{State, Effect}
use scout_off_contracts.Registration.Storage.{
  region_bucket, level_bucket, composite_index_add, composite_index_remove, level_index_add,
  level_index_remove, set_region_bucket, set_level_bucket,
}
use scout_off_contracts.Registration.Players.{
  leave_level, enter_level, leave_buckets, erase_player, player_index_remove, store_level,
}
use scout_off_contracts.Registration.Indexes.{occurs, length-remove_id, has_id-eq-ltb}
use scout_off_contracts.Registration.Directory.{IsOwned, IsDirectory}
use scout_off_contracts.Registration.Directory.Listed.{store_level-IsListed, erase_player-IsListed}
use scout_off_contracts.Registration.Directory.Owned.{IsListed-Same}

module _ (s : State) (h : IsDirectory s) (target : ℕ) (profile : StoredPlayerProfile)
    (found : s.player target ≡ some profile) where
  -- A stored player has a stored level.
  pub known_level : (level : Level) × (s.player_level target ≡ some level)
  known_level = elim (Option-cases (s.player_level target)) [
    | inl missing ↦ absurd (ground (arith, missing, found, (h.listed target).levelled))
    | inr known ↦ known
  ]

  module _ (changed : StoredPlayerProfile) (same_id : changed.player_id ≡ profile.player_id)
      (same_wallet : changed.wallet ≡ profile.wallet) where
    -- A profile with the same owner in the place of a stored one.
    replaced-IsOwned :
        (t : State)
        → t.player ≡ update s.player target changed
        → t.player_by_wallet ≡ s.player_by_wallet
        → t.player_counter ≡ s.player_counter
        → (id : ℕ) (p : StoredPlayerProfile) → t.player id ≡ some p
        → IsOwned t id p
    replaced-IsOwned t players wallets counter id p e =
        elim (update-inv s.player target id changed (subst (λ f. f id ≡ some p) players e)) [
          | inl (at_id, same) ↦
              let o = h.owned target profile found in
              record {
                named = cc (at_id, same, same_id, o.named);
                keyed = cc (at_id, same, same_wallet, o.keyed, wallets);
                allocated =
                    subst (λ c. id ≤ or_default 0 c) (sym counter)
                      (subst (λ n. n ≤ or_default 0 s.player_counter) at_id o.allocated);
              }
          | inr (apart, old) ↦
              let o = h.owned id p old in
              record {
                named = o.named;
                keyed = cc (o.keyed, wallets);
                allocated = subst (λ c. id ≤ or_default 0 c) (sym counter) o.allocated;
              }
        ]

    replaced-wallets :
        (w : Address) (id : ℕ)
        → s.player_by_wallet w ≡ some id
        → (p : StoredPlayerProfile) × (update s.player target changed id ≡ some p) × (p.wallet ≡ w)
    replaced-wallets w id e =
        let (p, stored, theirs) = h.wallets w id e in
        elim (Bool-cases (target == id)) [
          | inl at_id ↦
              let here : target ≡ id = (==_iff target id).0 at_id in
              let mine : profile.wallet ≡ w = cc (here, found, stored, theirs) in
              (changed, ground (arith, at_id), same_wallet ∙ mine)
          | inr apart ↦ (p, ground (arith, apart, stored), theirs)
        ]

    module _ (same_vitals : changed.vitals ≡ profile.vitals) where
      -- A player moves to another level.
      pub store_level-IsDirectory :
          (known level : Level)
          → s.player_level target ≡ some known
          → IsDirectory (
              store_level target changed level (
                enter_level level profile.vitals.region target
                  (leave_buckets (some known) profile.vitals.region target s)))
      unfolding store_level enter_level leave_buckets leave_level composite_index_add
          level_index_add composite_index_remove level_index_remove set_region_bucket
          set_level_bucket region_bucket level_bucket
      store_level-IsDirectory known level stored = record {
        listed = λ id.
            store_level-IsListed s target profile known found stored id level changed same_vitals
              (h.listed id);
        owned = replaced-IsOwned _ refl refl refl;
        wallets = replaced-wallets;
        counted = h.counted;
        unset = h.unset;
      }

      -- A profile changes in what no index depends on.
      pub replaced-IsDirectory :
          (t : State)
          → t ≡ record s { player = update s.player target changed; effects = t.effects }
          → IsDirectory t
      unfolding region_bucket level_bucket
      replaced-IsDirectory t e = subst IsDirectory (sym e) (record {
        listed = λ id.
            (let l = h.listed id in
              elim (Bool-cases (target == id)) [
                | inl at_id ↦
                    let here : target ≡ id = (==_iff target id).0 at_id in
                    let old : s.player id ≡ some profile = cc (here, found) in
                    record {
                      levelled = ground (arith, at_id, l.levelled, old);
                      indexed = ground (arith, at_id, l.indexed, old);
                      in_region = λ k r. ground (arith, at_id, l.in_region k r, old, same_vitals);
                      in_level = λ k. ground (arith, at_id, l.in_level k, old);
                    }
                | inr apart ↦ record {
                  levelled = ground (arith, apart, l.levelled);
                  indexed = ground (arith, apart, l.indexed);
                  in_region = λ k r. ground (arith, apart, l.in_region k r);
                  in_level = λ k. ground (arith, apart, l.in_level k);
                }
              ]);
        owned = replaced-IsOwned _ refl refl refl;
        wallets = replaced-wallets;
        counted = h.counted;
        unset = h.unset;
      })

  -- A player is erased, and the live counter with it.
  pub erased-IsDirectory :
      (known : Level) (effects : List Effect)
      → s.player_level target ≡ some known
      → IsDirectory
          (record (leave_level known profile.vitals.region target
            (player_index_remove target (erase_player target profile.wallet s))) {
              live_player_count = some (or_default 0 s.live_player_count - 1);
              effects = effects;
            })
  unfolding leave_level player_index_remove erase_player composite_index_remove level_index_remove
      region_bucket level_bucket
  erased-IsDirectory known effects stored =
      let here = (h.listed target).indexed in
      let once : occurs target (or_default [] s.player_index) ≡ 1 = ground (arith, here, found) in
      record {
        listed = λ id.
            IsListed-Same
              {s = leave_level known profile.vitals.region target
                (player_index_remove target (erase_player target profile.wallet s))}
              refl refl refl refl refl id
              (erase_player-IsListed s target profile known found stored id (h.listed id));
        owned = λ id p e.
            (let (apart, old) = remove-inv s.player target id e in
              let o = h.owned id p old in
              record {
                named = o.named;
                keyed = ground (arith, apart, o.keyed, (h.owned target profile found).keyed);
                allocated = o.allocated;
              });
        wallets = λ w id e.
            (let (apart, old) = remove-inv s.player_by_wallet profile.wallet w e in
              let (p, kept, theirs) = h.wallets w id old in
              (p, ground (arith, apart, kept, found, theirs), theirs));
        counted = ground (
          arith,
          h.counted,
          once,
          has_id-eq-ltb target (or_default [] s.player_index),
          length-remove_id target (or_default [] s.player_index),
        );
        unset = λ e.
            (let none_there : occurs target (or_default [] s.player_index) ≡ 0 =
                ap (occurs target) (h.unset e) in
              absurd (omega (arith, once, none_there)));
      }
