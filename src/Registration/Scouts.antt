-- ===== src/Registration/Scouts.antt =====
-- The scouts of contracts/registration/src/lib.rs: registration, seeding, verification, deactivation
-- and erasure.
use scout_off_contracts.Prelude.{
  ℕ, ◌-◌, Bool, true, false, not, none, some, [], ◌∷◌, if◌then◌else◌, or_default, is_some, update,
  remove,
}
use scout_off_contracts.Shared.Types.{Address, Text}
use scout_off_contracts.Contract.{
  get_state, modify, lift, fail_if, or_fail, pure, skip, ◌>>=◌, ◌>>◌,
}
use scout_off_contracts.Registration.Types.{
  Env, State, Call, ScoutProfile, ScoutVerificationRecord, already_registered, scout_not_found,
  invalid_input, scout_registered, scout_deregistered, scout_deactivated_event,
  scout_reactivated_event, scout_verified, scout_unverified,
}
use scout_off_contracts.Registration.Text.{canonicalize_region}
use scout_off_contracts.Registration.Storage.{
  admin_auth, auth, emit, require_initialized, require_not_paused, enforce_reg_cooldown,
  next_scout_id, require_scout_capacity, increment_live_scout_count,
}

-- `"admin_manual"`.
abbrev pub admin_manual : Text
admin_manual =
    b'a' ∷ b'd' ∷ b'm' ∷ b'i' ∷ b'n' ∷ b'_' ∷ b'm' ∷ b'a' ∷ b'n' ∷ b'u' ∷ b'a' ∷ b'l' ∷ []

abbrev pub not_verified : ScoutVerificationRecord
not_verified = record {
  verified = false;
  verified_by = none;
  verified_at = none;
  evidence_ref = none;
  method = none;
  revoked_at = none;
  revoked_reason = none;
}

abbrev pub verified_record : Address → ℕ → ScoutVerificationRecord
verified_record admin now = record {
  verified = true;
  verified_by = some admin;
  verified_at = some now;
  evidence_ref = none;
  method = some admin_manual;
  revoked_at = none;
  revoked_reason = none;
}

unfoldable pub load_scout : ℕ → Call ScoutProfile
load_scout scout_id s = or_fail (s.scout scout_id) scout_not_found s

-- The writes of a profile and of its wallet's key.
unfoldable pub store_scout : ScoutProfile → State → State
store_scout profile s = record s {
  scout = update s.scout profile.scout_id profile;
  scout_by_wallet = update s.scout_by_wallet profile.wallet profile.scout_id;
}

unfoldable pub register_scout : Env → Address → Text → Call ℕ
register_scout env wallet region = do
  require_not_paused
  require_initialized
  auth env wallet
  s ← get_state
  enforce_reg_cooldown env (s.scout_reg_last_sent wallet)
  fail_if (is_some (s.scout_by_wallet wallet)) already_registered
  canon_region ← lift (canonicalize_region region)
  require_scout_capacity
  scout_id ← next_scout_id
  modify (
      store_scout (record {
        scout_id = scout_id;
        wallet = wallet;
        region = canon_region;
        verified = false;
        verification = not_verified;
        registered_at = env.timestamp;
      }))
  modify (λ t. record t { scout_reg_last_sent = update t.scout_reg_last_sent wallet env.timestamp })
  increment_live_scout_count
  emit (scout_registered scout_id wallet)
  pure scout_id

unfoldable pub admin_seed_scout : Env → Address → Text → ℕ → ℕ → Bool → Call ℕ
admin_seed_scout env wallet region scout_id registered_at verified = do
  admin ← admin_auth env
  require_not_paused
  require_initialized
  s ← get_state
  fail_if (is_some (s.scout scout_id)) already_registered
  require_scout_capacity
  fail_if (is_some (s.scout_by_wallet wallet)) already_registered
  canon_region ← lift (canonicalize_region region)
  modify (
      store_scout (record {
        scout_id = scout_id;
        wallet = wallet;
        region = canon_region;
        verified = verified;
        verification = if verified then verified_record admin env.timestamp else not_verified;
        registered_at = registered_at;
      }))
  increment_live_scout_count
  emit (scout_registered scout_id wallet)
  pure scout_id

unfoldable pub deregister_scout : Env → ℕ → Call (Unit {0})
deregister_scout env scout_id = do
  admin ← admin_auth env
  profile ← load_scout scout_id
  modify (λ t. record t {
    scout = remove t.scout scout_id;
    scout_by_wallet = remove t.scout_by_wallet profile.wallet;
    scout_deactivated = remove t.scout_deactivated scout_id;
    live_scout_count = some (or_default 0 t.live_scout_count - 1);
  })
  emit (scout_deregistered scout_id profile.wallet admin)

unfoldable pub deactivate_scout : Env → ℕ → Call (Unit {0})
deactivate_scout env scout_id = do
  admin ← admin_auth env
  s ← get_state
  fail_if (not (is_some (s.scout scout_id))) scout_not_found
  if is_some (s.scout_deactivated scout_id) then skip else (do
    modify (λ t. record t { scout_deactivated = update t.scout_deactivated scout_id true })
    emit (scout_deactivated_event scout_id admin))

unfoldable pub reactivate_scout : Env → ℕ → Call (Unit {0})
reactivate_scout env scout_id = do
  admin ← admin_auth env
  s ← get_state
  fail_if (not (is_some (s.scout scout_id))) scout_not_found
  if not (is_some (s.scout_deactivated scout_id)) then skip else (do
    modify (λ t. record t { scout_deactivated = remove t.scout_deactivated scout_id })
    emit (scout_reactivated_event scout_id admin))

unfoldable pub verify_scout : Env → ℕ → Call (Unit {0})
verify_scout env scout_id = do
  admin ← admin_auth env
  profile ← load_scout scout_id
  if profile.verified then skip else (do
    modify (λ t. record t {
      scout =
          update t.scout scout_id (record profile {
            verified = true;
            verification = verified_record admin env.timestamp;
          });
    })
    emit (scout_verified scout_id profile.wallet))

unfoldable pub unverify_scout : Env → ℕ → Text → Call (Unit {0})
unverify_scout env scout_id reason = do
  admin ← admin_auth env
  profile ← load_scout scout_id
  fail_if (not profile.verified) invalid_input
  modify (λ t. record t {
    scout = update t.scout scout_id (record profile {
      verified = false;
      verification = record profile.verification {
        verified = false;
        revoked_at = some env.timestamp;
        revoked_reason = some reason;
      };
    });
  })
  emit (scout_unverified scout_id profile.wallet admin)
