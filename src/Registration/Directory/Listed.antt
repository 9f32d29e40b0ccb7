-- ===== src/Registration/Directory/Listed.antt =====
-- The index writes of contracts/registration/src/lib.rs and the listing of each player.
use scout_off_contracts.Prelude.{
  ℕ, ◌≡◌, true, none, some, [], ◌==◌, or_default, arith, Bool-cases, inl, inr, ==_iff,
}
use scout_off_contracts.Shared.Level.{Level}
use scout_off_contracts.Shared.Types.{StoredPlayerProfile}
use scout_off_contracts.Registration.Types.{State}
use scout_off_contracts.Registration.Storage.{
  region_bucket, level_bucket, composite_index_add, composite_index_remove, level_index_add,
  level_index_remove, set_region_bucket, set_level_bucket,
}
use scout_off_contracts.Registration.Players.{
  store_player, push_player_index, enter_player, leave_level, enter_level, leave_buckets,
  erase_player, player_index_remove, store_level,
}
use scout_off_contracts.Registration.Indexes.{
  occurs-snoc, occurs-remove_id, has_id-eq-ltb, occurs-composite_index_add,
  occurs-composite_index_remove, occurs-level_index_add, occurs-level_index_remove,
}
use scout_off_contracts.Registration.Directory.{IsListed}

module _ (profile : StoredPlayerProfile) (level : Level) (s : State) (id : ℕ) where
  -- A new player is listed, and no other player's listing changes.
  pub enter_player-IsListed :
      s.player profile.player_id ≡ none
      → IsListed s id
      → IsListed (enter_player profile level true s) id
  unfolding enter_player store_player push_player_index composite_index_add level_index_add
      set_region_bucket set_level_bucket region_bucket level_bucket
  enter_player-IsListed free h = elim (Bool-cases (profile.player_id == id)) [
    | inl e ↦
        let same : profile.player_id ≡ id = (==_iff profile.player_id id).0 e in
        let absent : s.player id ≡ none = cc (same, free) in
        record {
          levelled = ground (arith, e);
          indexed = ground (
            arith,
            e,
            h.indexed,
            absent,
            occurs-snoc id (or_default [] s.player_index) profile.player_id,
          );
          in_region = λ l r. ground (
            arith,
            e,
            h.in_region l r,
            absent,
            occurs-composite_index_add s level l profile.player_id id profile.vitals.region r,
          );
          in_level = λ l. ground (
            arith,
            e,
            h.in_level l,
            absent,
            occurs-level_index_add s level l profile.player_id id,
          );
        }
    | inr e ↦ record {
      levelled = ground (arith, e, h.levelled);
      indexed =
          ground
            (arith, e, h.indexed, occurs-snoc id (or_default [] s.player_index) profile.player_id);
      in_region = λ l r. ground (
        arith,
        e,
        h.in_region l r,
        occurs-composite_index_add s level l profile.player_id id profile.vitals.region r,
      );
      in_level = λ l.
          ground (arith, e, h.in_level l, occurs-level_index_add s level l profile.player_id id);
    }
  ]

module _ (s : State) (target : ℕ) (profile : StoredPlayerProfile) (known : Level)
    (found : s.player target ≡ some profile) (stored : s.player_level target ≡ some known)
    (id : ℕ) where
  -- A player moves to the buckets of the new level, and no other player's listing changes.
  pub store_level-IsListed :
      (level : Level) (changed : StoredPlayerProfile)
      → changed.vitals ≡ profile.vitals
      → IsListed s id
      → IsListed
          (store_level target changed level (
            enter_level level profile.vitals.region target
              (leave_buckets (some known) profile.vitals.region target s)))
          id
  unfolding store_level enter_level leave_buckets leave_level composite_index_add level_index_add
      composite_index_remove level_index_remove set_region_bucket set_level_bucket region_bucket
      level_bucket
  store_level-IsListed level changed same h = elim (Bool-cases (target == id)) [
    | inl e ↦
        let at_id : target ≡ id = (==_iff target id).0 e in
        let here : s.player id ≡ some profile = cc (at_id, found) in
        let here_level : s.player_level id ≡ some known = cc (at_id, stored) in
        let left = leave_level known profile.vitals.region target s in
        record {
          levelled = ground (arith, e);
          indexed = ground (arith, e, h.indexed, here);
          in_region = λ l r. ground (
            arith,
            e,
            same,
            h.in_region l r,
            here,
            here_level,
            occurs-composite_index_add left level l target id profile.vitals.region r,
            occurs-composite_index_remove s known l target id profile.vitals.region r,
          );
          in_level = λ l. ground (
            arith,
            e,
            h.in_level l,
            here,
            here_level,
            occurs-level_index_add left level l target id,
            occurs-level_index_remove s known l target id,
          );
        }
    | inr e ↦
        let left = leave_level known profile.vitals.region target s in
        record {
          levelled = ground (arith, e, h.levelled);
          indexed = ground (arith, e, h.indexed);
          in_region = λ l r. ground (
            arith,
            e,
            same,
            h.in_region l r,
            occurs-composite_index_add left level l target id profile.vitals.region r,
            occurs-composite_index_remove s known l target id profile.vitals.region r,
          );
          in_level = λ l. ground (
            arith,
            e,
            h.in_level l,
            occurs-level_index_add left level l target id,
            occurs-level_index_remove s known l target id,
          );
        }
  ]

  -- An erased player is listed nowhere, and no other player's listing changes.
  pub erase_player-IsListed :
      IsListed s id
      → IsListed
          (leave_level known profile.vitals.region target
            (player_index_remove target (erase_player target profile.wallet s)))
          id
  unfolding leave_level player_index_remove erase_player composite_index_remove level_index_remove
      region_bucket level_bucket
  erase_player-IsListed h = elim (Bool-cases (target == id)) [
    | inl e ↦
        let at_id : target ≡ id = (==_iff target id).0 e in
        let here : s.player id ≡ some profile = cc (at_id, found) in
        let here_level : s.player_level id ≡ some known = cc (at_id, stored) in
        record {
          levelled = ground (arith, e);
          indexed = ground (
            arith,
            e,
            h.indexed,
            here,
            occurs-remove_id id target (or_default [] s.player_index),
            has_id-eq-ltb target (or_default [] s.player_index),
          );
          in_region = λ l r. ground (
            arith,
            e,
            h.in_region l r,
            here,
            here_level,
            occurs-composite_index_remove s known l target id profile.vitals.region r,
          );
          in_level = λ l. ground (
            arith,
            e,
            h.in_level l,
            here,
            here_level,
            occurs-level_index_remove s known l target id,
          );
        }
    | inr e ↦ record {
      levelled = ground (arith, e, h.levelled);
      indexed = ground (
        arith,
        e,
        h.indexed,
        occurs-remove_id id target (or_default [] s.player_index),
        has_id-eq-ltb target (or_default [] s.player_index),
      );
      in_region = λ l r. ground (
        arith,
        e,
        h.in_region l r,
        occurs-composite_index_remove s known l target id profile.vitals.region r,
      );
      in_level =
          λ l. ground (arith, e, h.in_level l, occurs-level_index_remove s known l target id);
    }
  ]
