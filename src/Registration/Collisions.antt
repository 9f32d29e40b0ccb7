-- ===== src/Registration/Collisions.antt =====
-- Ids that were seeded above the counter of contracts/registration/src/lib.rs, and registration.
use scout_off_contracts.Prelude.{ℕ, ◌+◌, ◌≡◌, refl, ap, ◌∙◌, some, List, or_default, arith, ==_refl}
use scout_off_contracts.Shared.Types.{Address, Text, PlayerVitals, StoredPlayerProfile}
use scout_off_contracts.Contract.{ok}
use scout_off_contracts.Registration.Types.{Env, State}
use scout_off_contracts.Registration.Storage.{
  composite_index_add, level_index_add, set_region_bucket, set_level_bucket,
}
use scout_off_contracts.Registration.Players.{
  register_player, new_profile, enter_player, store_player, push_player_index,
}
use scout_off_contracts.Registration.Register.{register_player-Registered}

-- Two wallets lead to one id, whose profile belongs to the first.
pub record Collide (wallet other : Address) (id : ℕ) (t : State) : Type 0 where
  pub profile : StoredPlayerProfile
  pub stored : t.player id ≡ some profile
  pub mine : profile.wallet ≡ wallet
  pub keyed : t.player_by_wallet wallet ≡ some id
  pub other_keyed : t.player_by_wallet other ≡ some id

-- A registration that returned, when another wallet holds the id next to the counter: the other
-- wallet's profile is overwritten, and both wallets lead to the new one.
pub register_player-Collide :
    (env : Env) (wallet : Address) (vitals : PlayerVitals) (ipfs_hashes : List Text) (player_id : ℕ)
    (s t : State) (other : Address)
    → register_player env wallet vitals ipfs_hashes s ≡ ok (player_id, t)
    → s.player_by_wallet other ≡ some (or_default 0 s.player_counter + 1)
    → Collide wallet other player_id t
unfolding enter_player store_player push_player_index composite_index_add level_index_add
    set_region_bucket set_level_bucket
register_player-Collide env wallet vitals ipfs_hashes player_id s t other e held =
    let r = register_player-Registered env wallet vitals ipfs_hashes player_id s t e in
    record {
      profile = new_profile env wallet r.canon ipfs_hashes player_id;
      stored = ap (λ (x : State). x.player player_id) r.written ∙ (rw (==_refl player_id));
      mine = refl;
      keyed = ap (λ (x : State). x.player_by_wallet wallet) r.written ∙ (rw (==_refl wallet));
      other_keyed =
          ap (λ (x : State). x.player_by_wallet other) r.written
          ∙ ground (arith, held, r.allotted, r.checked.unowned);
    }
