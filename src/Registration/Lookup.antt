-- ===== src/Registration/Lookup.antt =====
-- Players by their wallets: `get_player` and `get_player_by_wallet` of
-- contracts/registration/src/lib.rs.
use scout_off_contracts.Prelude.{ℕ, ◌≡◌, refl, sym, ap, Option, ◌∙◌, some, none, List, ==_refl}
use scout_off_contracts.Shared.Level.{unverified}
use scout_off_contracts.Shared.Types.{
  Address, Text, PlayerVitals, StoredPlayerProfile, PlayerProfile,
}
use scout_off_contracts.Contract.{ok, err, trap}
use scout_off_contracts.Registration.Types.{Env, State, ScoutChainError, player_not_found}
use scout_off_contracts.Registration.Players.{
  register_player, new_profile, enter_player, store_player, push_player_index,
}
use scout_off_contracts.Registration.Storage.{
  composite_index_add, level_index_add, set_region_bucket, set_level_bucket,
}
use scout_off_contracts.Registration.Register.{register_player-Registered, IsCanon}
use scout_off_contracts.Registration.Directory.{IsDirectory}
use scout_off_contracts.Registration.Queries.{
  Result, and_then, ok_or, load_player, resolve_level, get_player, get_player_by_wallet,
  stored_to_profile,
}

and_then-inv :
    {A B : Type 0} (o : Result A) (f : A → Result B) (b : B)
    → and_then o f ≡ ok b
    → (a : A) × (o ≡ ok a) × (f a ≡ ok b)
and_then-inv (ok a) f b e = (a, refl, e)
and_then-inv (err x) f b e = cc e
and_then-inv trap f b e = cc e

ok_or-inv :
    {A : Type 0} (o : Option A) (x : ScoutChainError) (a : A) → ok_or o x ≡ ok a → o ≡ some a
ok_or-inv none x a e = cc e
ok_or-inv (some b) x a e = cc e

-- The profile that a load found carries the stored wallet and id.
load_player-inv :
    (env : Env) (s : State) (id : ℕ) (profile : PlayerProfile)
    → load_player env s id ≡ ok profile
    → (stored : StoredPlayerProfile) × (s.player id ≡ some stored)
      × (profile.wallet ≡ stored.wallet)
      × (profile.player_id ≡ stored.player_id)
unfolding load_player stored_to_profile
load_player-inv env s id profile e =
    let (stored, found, rest) = and_then-inv (ok_or (s.player id) player_not_found) _ profile e in
    let (level, known, made) = and_then-inv (resolve_level env s id) _ profile rest in
    let same : stored_to_profile stored level ≡ profile = cc made in
    (
      stored,
      ok_or-inv (s.player id) player_not_found stored found,
      sym (ap (λ (p : PlayerProfile). p.wallet) same),
      sym (ap (λ (p : PlayerProfile). p.player_id) same),
    )

-- Where the keys of the storage agree, a player that `get_player` finds under an id carries this id,
-- and `get_player_by_wallet` finds the same profile under its wallet.
pub get_player-get_player_by_wallet :
    (env : Env) (s : State) (id : ℕ) (profile : PlayerProfile)
    → IsDirectory s
    → get_player env s id ≡ ok profile
    → (profile.player_id ≡ id) × (get_player_by_wallet env s profile.wallet ≡ ok profile)
unfolding get_player get_player_by_wallet
get_player-get_player_by_wallet env s id profile h e =
    let (stored, found, same_wallet, same_id) = load_player-inv env s id profile e in
    let owned = h.owned id stored found in
    let by_wallet : get_player_by_wallet env s stored.wallet ≡ ok profile =
      ap (λ o. and_then (ok_or o player_not_found) (load_player env s)) owned.keyed ∙ e in
    (same_id ∙ owned.named, ap (λ w. get_player_by_wallet env s w) same_wallet ∙ by_wallet)

-- Right after a registration that returned, whoever asks for the wallet's player gets the profile with
-- the canonical vitals, the new id and the level `Unverified`.
pub register_player-get_player_by_wallet :
    (env reader : Env) (wallet : Address) (vitals : PlayerVitals) (ipfs_hashes : List Text)
    (player_id : ℕ) (s t : State)
    → register_player env wallet vitals ipfs_hashes s ≡ ok (player_id, t)
    → (canon : PlayerVitals) × IsCanon vitals canon
      × (get_player_by_wallet reader t wallet
          ≡ ok (stored_to_profile (new_profile env wallet canon ipfs_hashes player_id) unverified))
unfolding get_player_by_wallet load_player resolve_level enter_player store_player push_player_index
    composite_index_add level_index_add set_region_bucket set_level_bucket
register_player-get_player_by_wallet env reader wallet vitals ipfs_hashes player_id s t e =
    let r = register_player-Registered env wallet vitals ipfs_hashes player_id s t e in
    let keyed : t.player_by_wallet wallet ≡ some player_id =
      ap (λ (x : State). x.player_by_wallet wallet) r.written ∙ (rw (==_refl wallet)) in
    let stored : t.player player_id ≡ some (new_profile env wallet r.canon ipfs_hashes player_id) =
      ap (λ (x : State). x.player player_id) r.written ∙ (rw (==_refl player_id)) in
    let level : t.player_level player_id ≡ some unverified =
      ap (λ (x : State). x.player_level player_id) r.written ∙ (rw (==_refl player_id)) in
    (r.canon, r.checked.canonical, rw (keyed, stored, resolve_level, level))
