-- ===== src/Registration/Redeemed.antt =====
-- Ticket redemption of contracts/registration/src/lib.rs: its guards and its writes.
use scout_off_contracts.Prelude.{
  ℕ, ◌<◌, ◌≡◌, ◌∙◌, ap, subst, true, false, none, List, or_default, arith, bytes_eq_iff,
}
use scout_off_contracts.Shared.Level.{Level}
use scout_off_contracts.Shared.Types.{Address, Text, PlayerVitals, Hash}
use scout_off_contracts.Contract.{ok, >>=-inv}
use scout_off_contracts.Registration.Types.{
  Env, State, migration_redeemed, player_role, MigrationAuthorization, MigrationRole,
}
use scout_off_contracts.Registration.Storage.{require_initialized, require_not_paused, log}
use scout_off_contracts.Registration.Players.{canonicalize_vitals}
use scout_off_contracts.Registration.Seeding.{admin_seed_player}
use scout_off_contracts.Registration.Migration.{
  check_authorization, spend_authorization, redeem_migration_player, mark_migration_nonce, role_eq,
  profile_data_hash, migration_message, address_to_ed25519_key,
}
use scout_off_contracts.Registration.Register.{IsCanon, canonicalize_vitals-inv}
use scout_off_contracts.Registration.Seeded.{Seeded, admin_seed_player-Seeded}

-- A ticket that is good for this wallet and role now, and has not been redeemed.
pub record IsGood (env : Env) (role : MigrationRole) (wallet : Address)
    (authorization : MigrationAuthorization) (s : State) : Type 0 where
  pub running : or_default false s.paused ≡ false
  pub initialized : or_default false s.initialized ≡ true
  pub for_role : authorization.role ≡ role
  pub for_wallet : authorization.wallet ≡ wallet
  pub unexpired : 0 < authorization.expires_at → env.timestamp < authorization.expires_at
  pub unused : s.migration_nonce wallet authorization.nonce ≡ none

-- The ticket's hash and its signature by the wallet's key.
pub record IsSigned (env : Env) (wallet : Address) (authorization : MigrationAuthorization)
    (data_hash : Hash) : Type 0 where
  pub hashed : authorization.profile_data_hash ≡ data_hash
  pub signed :
      env.host.ed25519_valid
        (address_to_ed25519_key env.host wallet)
        (migration_message env.host authorization)
        authorization.signature
      ≡ true

role_eq_sound : (a b : MigrationRole) → role_eq a b ≡ true → a ≡ b
unfolding role_eq
role_eq_sound a b e = ground arith

module _ (env : Env) (wallet : Address) (authorization : MigrationAuthorization) (s t : State) where
  pub check_authorization-inv :
      (role : MigrationRole)
      → check_authorization env role wallet authorization s ≡ ok (tt, t)
      → IsGood env role wallet authorization s × (t ≡ s)
  unfolding check_authorization require_not_paused require_initialized
  check_authorization-inv role e = (
    record {
      running = ground arith;
      initialized = ground arith;
      for_role = role_eq_sound authorization.role role (ground arith);
      for_wallet = ground arith;
      unexpired = λ limited. ground (arith, limited);
      unused = ground arith;
    },
    ground arith,
  )

  pub spend_authorization-inv :
      (data_hash : Hash)
      → spend_authorization env wallet authorization data_hash s ≡ ok (tt, t)
      → IsSigned env wallet authorization data_hash
        × (t ≡ mark_migration_nonce wallet authorization.nonce s)
  unfolding spend_authorization
  spend_authorization-inv data_hash e = (
    record {
      hashed = (bytes_eq_iff authorization.profile_data_hash data_hash).0 (ground arith);
      signed = ground arith;
    },
    ground arith,
  )

-- A redemption that returned: of a good, signed ticket, which is spent, and as a seeding by the
-- administrator.
pub record RedeemedPlayer (env : Env) (wallet : Address) (vitals : PlayerVitals)
    (ipfs_hashes : List Text) (level : Level) (player_id registered_at updated_at : ℕ)
    (authorization : MigrationAuthorization) (s t : State) : Type 0 where
  pub canon : PlayerVitals
  pub good : IsGood env player_role wallet authorization s
  pub canonical : IsCanon vitals canon
  pub signed :
      IsSigned env wallet authorization
        (profile_data_hash env.host wallet canon ipfs_hashes player_id registered_at updated_at)
  pub after : State
  pub seeded :
      Seeded env wallet canon ipfs_hashes level player_id registered_at updated_at
        (mark_migration_nonce wallet authorization.nonce s)
        after
  pub written :
      t
      ≡ log (migration_redeemed wallet player_role player_id authorization.new_contract_hint) after

module _ (env : Env) (wallet : Address) (vitals : PlayerVitals) (ipfs_hashes : List Text)
    (level : Level) (player_id registered_at updated_at : ℕ)
    (authorization : MigrationAuthorization) (id : ℕ) (s t : State) where
  pub redeem_migration_player-Redeemed :
      redeem_migration_player env wallet vitals ipfs_hashes level player_id registered_at updated_at
          authorization s
        ≡ ok (id, t)
      → RedeemedPlayer env wallet vitals ipfs_hashes level player_id registered_at updated_at
          authorization s t
  unfolding redeem_migration_player
  redeem_migration_player-Redeemed e =
      let (u, s₁, checked, e₁) =
        >>=-inv (check_authorization env player_role wallet authorization) _ e in
      let (good, t₁) = check_authorization-inv env wallet authorization s s₁ player_role checked in
      let (canon, s₂, canoned, e₂) = >>=-inv (canonicalize_vitals vitals) _ e₁ in
      let (canonical, t₂) = canonicalize_vitals-inv vitals canon s₁ s₂ canoned in
      let data_hash =
        profile_data_hash env.host wallet canon ipfs_hashes player_id registered_at updated_at in
      let (v, s₃, spent, e₃) =
        >>=-inv (spend_authorization env wallet authorization data_hash) _ e₂ in
      let (signed, t₃) = spend_authorization-inv env wallet authorization s₂ s₃ data_hash spent in
      let (id', after, seeded, e₄) =
        >>=-inv
          (admin_seed_player env wallet canon ipfs_hashes level player_id registered_at updated_at)
          _ e₃ in
      record {
        canon = canon;
        good = good;
        canonical = canonical;
        signed = signed;
        after = after;
        seeded =
            subst
              (λ x.
                Seeded env wallet canon ipfs_hashes level player_id registered_at updated_at x
                  after)
              (t₃ ∙ ap (mark_migration_nonce wallet authorization.nonce) (t₂ ∙ t₁))
              (admin_seed_player-Seeded env wallet canon ipfs_hashes level player_id registered_at
                updated_at id' s₃ after seeded);
        written = cc e₄;
      }
