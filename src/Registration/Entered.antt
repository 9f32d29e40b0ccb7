-- ===== src/Registration/Entered.antt =====
-- What `register_player` of contracts/registration/src/lib.rs leaves behind, key by key.
use scout_off_contracts.Prelude.{
  ℕ, ◌+◌, ◌≤◌, ◌≡◌, ◌≢◌, ◌∙◌, refl, sym, ap, true, some, List, [], ◌∷◌, ◌++◌, or_default, ==_refl,
  ne→==, bytes_eq_refl,
}
use scout_off_contracts.Prelude.Words.{u64_max}
use scout_off_contracts.Shared.Level.{level_eq, level_eq_iff, unverified}
use scout_off_contracts.Shared.Types.{Address, Text, PlayerVitals}
use scout_off_contracts.Contract.{ok}
use scout_off_contracts.Registration.Types.{Env, State, player_registered}
use scout_off_contracts.Registration.Storage.{
  composite_index_add, level_index_add, set_region_bucket, set_level_bucket, region_bucket,
  level_bucket,
}
use scout_off_contracts.Registration.Players.{
  register_player, enter_player, store_player, push_player_index,
}
use scout_off_contracts.Registration.Register.{Registered, register_player-Registered, IsChecked}

-- A checked registration under the id next to the counter: the profile with the canonical vitals under
-- its id, the id under the wallet and at the end of the three indexes, the first level, and the two
-- counters, the time of the registration and the event; the other players are as they were.
pub record IsEntered (env : Env) (wallet : Address) (vitals : PlayerVitals)
    (ipfs_hashes : List Text) (player_id : ℕ) (s t : State) : Type 0 where
  pub canon : PlayerVitals
  pub checked : IsChecked env wallet vitals canon ipfs_hashes s
  pub allotted : player_id ≡ or_default 0 s.player_counter + 1
  pub fits : player_id ≤ u64_max
  pub profile :
      t.player player_id
      ≡ some (record {
        player_id = player_id;
        wallet = wallet;
        vitals = canon;
        ipfs_hashes = ipfs_hashes;
        registered_at = env.timestamp;
        updated_at = env.timestamp;
      })
  pub keyed : t.player_by_wallet wallet ≡ some player_id
  pub levelled : t.player_level player_id ≡ some unverified
  pub indexed : t.player_index ≡ some (or_default [] s.player_index ++ player_id ∷ [])
  pub in_region :
      t.players_by_level_region unverified canon.region
      ≡ some (or_default [] (s.players_by_level_region unverified canon.region) ++ player_id ∷ [])
  pub in_level :
      t.players_by_level unverified
      ≡ some (or_default [] (s.players_by_level unverified) ++ player_id ∷ [])
  pub counter : t.player_counter ≡ some player_id
  pub live : t.live_player_count ≡ some (or_default 0 s.live_player_count + 1)
  pub sent : t.player_reg_last_sent wallet ≡ some env.timestamp
  pub emitted : t.effects ≡ player_registered player_id wallet ∷ s.effects
  pub others :
      (other : ℕ)
      → other ≢ player_id
      → (t.player other ≡ s.player other) × (t.player_level other ≡ s.player_level other)
  pub other_wallets :
      (other : Address) → other ≢ wallet → t.player_by_wallet other ≡ s.player_by_wallet other

module _ (env : Env) (wallet : Address) (vitals : PlayerVitals) (ipfs_hashes : List Text)
    (player_id : ℕ) (s t : State) where
  Registered-IsEntered :
      Registered env wallet vitals ipfs_hashes player_id s t
      → IsEntered env wallet vitals ipfs_hashes player_id s t
  unfolding enter_player store_player push_player_index composite_index_add level_index_add
      set_region_bucket set_level_bucket region_bucket level_bucket
  Registered-IsEntered r =
      let same : level_eq unverified unverified ≡ true =
        (level_eq_iff unverified unverified).1 refl in
      record {
        canon = r.canon;
        checked = r.checked;
        allotted = r.allotted;
        fits = r.fits;
        profile = ap (λ (x : State). x.player player_id) r.written ∙ (rw (==_refl player_id));
        keyed = ap (λ (x : State). x.player_by_wallet wallet) r.written ∙ (rw (==_refl wallet));
        levelled =
            ap (λ (x : State). x.player_level player_id) r.written ∙ (rw (==_refl player_id));
        indexed = ap (λ (x : State). x.player_index) r.written;
        in_region =
            ap (λ (x : State). x.players_by_level_region unverified r.canon.region) r.written
            ∙ (rw (same, bytes_eq_refl r.canon.region));
        in_level = ap (λ (x : State). x.players_by_level unverified) r.written ∙ (rw same);
        counter = ap (λ (x : State). x.player_counter) r.written;
        live = ap (λ (x : State). x.live_player_count) r.written;
        sent = ap (λ (x : State). x.player_reg_last_sent wallet) r.written ∙ (rw (==_refl wallet));
        emitted = ap (λ (x : State). x.effects) r.written;
        others = λ other ne.
            (let apart = ne→== player_id other (λ e. ne (sym e)) in
              (
                ap (λ (x : State). x.player other) r.written ∙ (rw apart),
                ap (λ (x : State). x.player_level other) r.written ∙ (rw apart),
              ));
        other_wallets = λ other ne.
            (let apart = ne→== wallet other (λ e. ne (sym e)) in
              ap (λ (x : State). x.player_by_wallet other) r.written ∙ (rw apart));
      }

  -- A `register_player` that returned was checked: an initialised and unpaused contract, the wallet's
  -- authorisation and cooldown, no player of the wallet yet, room for a player, an age within its bounds,
  -- vitals that have a canonical form, and one to ten hashes. It took the id next to the counter, and
  -- the keys have changed as `IsEntered` says: profile, wallet, level, the three indexes, both counters
  -- and the time of registration; no other player's profile and level, and no other wallet's key.
  pub register_player-IsEntered :
      register_player env wallet vitals ipfs_hashes s ≡ ok (player_id, t)
      → IsEntered env wallet vitals ipfs_hashes player_id s t
  register_player-IsEntered e =
      Registered-IsEntered
        (register_player-Registered env wallet vitals ipfs_hashes player_id s t e)
