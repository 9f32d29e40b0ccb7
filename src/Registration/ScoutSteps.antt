-- ===== src/Registration/ScoutSteps.antt =====
-- The calls of contracts/registration/src/lib.rs that add or erase scouts.
use scout_off_contracts.Prelude.{ℕ, ◌≤◌, ◌≡◌, Bool, or_default, arith, ◌∙◌, subst, ap}
use scout_off_contracts.Shared.Types.{Address, Text}
use scout_off_contracts.Shared.Admin.{require_admin}
use scout_off_contracts.Shared.SafeMath.{safe_add_u64}
use scout_off_contracts.Contract.{ok, >>=-inv, lift-inv}
use scout_off_contracts.Registration.Types.{
  Env, State, MigrationAuthorization, max_scouts, scout_role, migration_redeemed,
}
use scout_off_contracts.Registration.Text.{canonicalize_region}
use scout_off_contracts.Registration.Storage.{
  require_initialized, require_not_paused, enforce_reg_cooldown, next_scout_id,
  require_scout_capacity, increment_live_scout_count, log,
}
use scout_off_contracts.Registration.Scouts.{
  load_scout, store_scout, register_scout, admin_seed_scout, deregister_scout,
}
use scout_off_contracts.Registration.Migration.{
  redeem_migration_scout, region_hash, check_authorization, spend_authorization,
  mark_migration_nonce,
}
use scout_off_contracts.Registration.Redeemed.{
  IsGood, IsSigned, check_authorization-inv, spend_authorization-inv,
}
use scout_off_contracts.Registration.Directory.Owned.{SameDirectory}

-- The directory and the spent tickets are left alone, and there is room for every scout.
pub record ScoutStep (s t : State) : Type 0 where
  pub directory : SameDirectory s t
  pub nonces : t.migration_nonce ≡ s.migration_nonce
  pub bounded :
      or_default 0 s.live_scout_count ≤ max_scouts → or_default 0 t.live_scout_count ≤ max_scouts

module _ (env : Env) (s t : State) where
  pub deregister_scout-ScoutStep : (id : ℕ) → deregister_scout env id s ≡ ok (tt, t) → ScoutStep s t
  unfolding deregister_scout require_admin load_scout
  deregister_scout-ScoutStep id e = record {
    directory = ground arith;
    nonces = ground arith;
    bounded = λ h. ground arith;
  }

  pub register_scout-ScoutStep :
      (wallet : Address) (region : Text) (id : ℕ)
      → register_scout env wallet region s ≡ ok (id, t)
      → ScoutStep s t
  unfolding register_scout require_initialized require_not_paused enforce_reg_cooldown next_scout_id
      require_scout_capacity increment_live_scout_count store_scout safe_add_u64
  register_scout-ScoutStep wallet region id e = record {
    directory = ground arith;
    nonces = ground arith;
    bounded = λ h. ground arith;
  }

  pub admin_seed_scout-ScoutStep :
      (wallet : Address) (region : Text) (scout_id registered_at : ℕ) (verified : Bool) (id : ℕ)
      → admin_seed_scout env wallet region scout_id registered_at verified s ≡ ok (id, t)
      → ScoutStep s t
  unfolding admin_seed_scout require_admin require_initialized require_not_paused
      require_scout_capacity increment_live_scout_count store_scout
  admin_seed_scout-ScoutStep wallet region scout_id registered_at verified id e = record {
    directory = ground arith;
    nonces = ground arith;
    bounded = λ h. ground arith;
  }

  -- A redemption of a scout's ticket that returned: the ticket was good and signed, and it is spent.
  pub record RedeemedScout (wallet : Address) (scout_id : ℕ)
      (authorization : MigrationAuthorization) : Type 0 where
    pub canon_region : Text
    pub good : IsGood env scout_role wallet authorization s
    pub signed : IsSigned env wallet authorization (region_hash env.host canon_region)
    pub after : State
    pub step : ScoutStep (mark_migration_nonce wallet authorization.nonce s) after
    pub written :
        t
        ≡ log (migration_redeemed wallet scout_role scout_id authorization.new_contract_hint) after

module _ (env : Env) (s t : State) (wallet : Address) (region : Text) (scout_id registered_at : ℕ)
    (verified : Bool) (authorization : MigrationAuthorization) (id : ℕ) where
  pub redeem_migration_scout-RedeemedScout :
      redeem_migration_scout env wallet region scout_id registered_at verified authorization s
        ≡ ok (id, t)
      → RedeemedScout env s t wallet scout_id authorization
  unfolding redeem_migration_scout
  redeem_migration_scout-RedeemedScout e =
      let (u, s₁, checked, e₁) =
        >>=-inv (check_authorization env scout_role wallet authorization) _ e in
      let (good, t₁) = check_authorization-inv env wallet authorization s s₁ scout_role checked in
      let (canon, canonical, e₂) = lift-inv (canonicalize_region region) _ e₁ in
      let data_hash = region_hash env.host canon in
      let (v, s₃, spent, e₃) =
        >>=-inv (spend_authorization env wallet authorization data_hash) _ e₂ in
      let (signed, t₃) = spend_authorization-inv env wallet authorization s₁ s₃ data_hash spent in
      let (id', after, seeded, e₄) =
        >>=-inv (admin_seed_scout env wallet canon scout_id registered_at verified) _ e₃ in
      record {
        canon_region = canon;
        good = good;
        signed = signed;
        after = after;
        step =
            subst (λ x. ScoutStep x after)
              (t₃ ∙ ap (mark_migration_nonce wallet authorization.nonce) t₁)
              (admin_seed_scout-ScoutStep env s₃ after wallet canon scout_id registered_at verified
                id' seeded);
        written = cc e₄;
      }
