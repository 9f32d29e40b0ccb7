-- ===== src/Registration/Directory/Owned.antt =====
-- The writes of contracts/registration/src/lib.rs that enter, change and erase players, and the
-- directory.
use scout_off_contracts.Prelude.{
  ℕ, ◌≤◌, ◌≡◌, refl, sym, ap, ◌∙◌, subst, true, false, Option, none, some, [], ◌∷◌, or_default,
  is_some, arith, inl, inr, update-inv, length-append,
}
use scout_off_contracts.Shared.Level.{Level}
use scout_off_contracts.Shared.Types.{Address, StoredPlayerProfile}
use scout_off_contracts.Registration.Types.{State}
use scout_off_contracts.Registration.Storage.{
  region_bucket, level_bucket, composite_index_add, level_index_add, set_region_bucket,
  set_level_bucket,
}
use scout_off_contracts.Registration.Players.{store_player, push_player_index, enter_player}
use scout_off_contracts.Registration.Register.{entered}
use scout_off_contracts.Registration.Directory.{IsListed, IsDirectory}
use scout_off_contracts.Registration.Directory.Listed.{enter_player-IsListed}

-- Nothing of the directory differs.
pub record SameDirectory (s t : State) : Type 0 where
  pub player : t.player ≡ s.player
  pub player_by_wallet : t.player_by_wallet ≡ s.player_by_wallet
  pub player_level : t.player_level ≡ s.player_level
  pub player_index : t.player_index ≡ s.player_index
  pub players_by_level_region : t.players_by_level_region ≡ s.players_by_level_region
  pub players_by_level : t.players_by_level ≡ s.players_by_level
  pub player_counter : t.player_counter ≡ s.player_counter
  pub live_player_count : t.live_player_count ≡ s.live_player_count
  pub initialized : t.initialized ≡ s.initialized

module _ {s t : State} where
  pub IsListed-Same :
      t.player ≡ s.player
      → t.player_level ≡ s.player_level
      → t.player_index ≡ s.player_index
      → t.players_by_level_region ≡ s.players_by_level_region
      → t.players_by_level ≡ s.players_by_level
      → (id : ℕ) → IsListed s id
      → IsListed t id
  unfolding region_bucket level_bucket
  IsListed-Same player level index regions levels id h = record {
    levelled = rw (player, level, h.levelled);
    indexed = rw (player, index, h.indexed);
    in_region = λ l r. rw (player, level, regions, h.in_region l r);
    in_level = λ l. rw (player, level, levels, h.in_level l);
  }

  pub IsDirectory-Same : SameDirectory s t → IsDirectory s → IsDirectory t
  IsDirectory-Same same h = record {
    listed = λ id.
        IsListed-Same same.player same.player_level same.player_index same.players_by_level_region
          same.players_by_level id (h.listed id);
    owned = λ id p e.
        (let o = h.owned id p (subst (λ f. f id ≡ some p) same.player e) in
          record {
            named = o.named;
            keyed = subst (λ f. f p.wallet ≡ some id) (sym same.player_by_wallet) o.keyed;
            allocated = subst (λ c. id ≤ or_default 0 c) (sym same.player_counter) o.allocated;
          });
    wallets = λ w id e.
        (let (p, stored, mine) =
            h.wallets w id (subst (λ f. f w ≡ some id) same.player_by_wallet e) in
          (p, subst (λ f. f id ≡ some p) (sym same.player) stored, mine));
    counted = cc (same.live_player_count, same.player_index, h.counted);
    unset = λ e.
        ap (or_default []) same.player_index
        ∙ h.unset (subst (λ i. is_some i ≡ false) same.initialized e);
  }

module _ (profile : StoredPlayerProfile) (level : Level) (counter : Option ℕ)
    (last_sent : Address → Option ℕ) (s : State) (h : IsDirectory s) where
  -- A new player with an allocated id and a wallet of its own.
  pub entered-IsDirectory :
      s.player profile.player_id ≡ none
      → s.player_by_wallet profile.wallet ≡ none
      → or_default 0 s.player_counter ≤ or_default 0 counter
      → profile.player_id ≤ or_default 0 counter
      → is_some s.initialized ≡ true
      → IsDirectory (entered profile level counter last_sent s)
  unfolding enter_player store_player push_player_index composite_index_add level_index_add
      set_region_bucket set_level_bucket region_bucket level_bucket
  entered-IsDirectory free unowned grows allocated initialized = record {
    listed = λ id.
        IsListed-Same {s = enter_player profile level true s} refl refl refl refl refl id
          (enter_player-IsListed profile level s id free (h.listed id));
    owned = λ id p e. elim (update-inv s.player profile.player_id id profile e) [
      | inl (at_id, same) ↦
          let mine : profile.wallet ≡ p.wallet = cc same in
          record {
            named = cc (at_id, same);
            keyed = ground (arith, at_id, mine);
            allocated = ground (arith, at_id);
          }
      | inr (apart, old) ↦
          let o = h.owned id p old in
          record {
            named = o.named;
            keyed = ground (arith, o.keyed, unowned);
            allocated = ground (arith, o.allocated);
          }
    ];
    wallets = λ w id e. elim (update-inv s.player_by_wallet profile.wallet w profile.player_id e) [
      | inl (mine, same) ↦ (profile, ground (arith, same), mine)
      | inr (apart, old) ↦
          let (p, stored, theirs) = h.wallets w id old in (p, ground (arith, stored, free), theirs)
    ];
    counted =
        ground
          (arith, h.counted, length-append (or_default [] s.player_index) (profile.player_id ∷ []));
    unset = λ e. ground (arith, initialized);
  }
