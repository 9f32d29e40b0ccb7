-- ===== src/Registration/Migration.antt =====
-- The migration tickets of contracts/registration/src/lib.rs.
use scout_off_contracts.Prelude.{
  ℕ, Bool, true, false, not, ◌&&◌, none, some, List, [], ◌∷◌, ◌++◌, ltb, leb, ◌==◌, if◌then◌else◌,
  or_default, is_some, bytes_eq, to_be_bytes, update₂, replicate,
}
use scout_off_contracts.Shared.Level.{Level}
use scout_off_contracts.Shared.Types.{Address, Hash, Text, PlayerVitals}
use scout_off_contracts.Contract.{get_state, modify, lift, fail_if, or_trap, pure, ◌>>=◌, ◌>>◌}
use scout_off_contracts.Registration.Types.{
  Env, Host, State, Call, MigrationRole, player_role, scout_role, MigrationAuthorization,
  invalid_input, migration_redeemed,
}
use scout_off_contracts.Registration.Text.{canonicalize_region}
use scout_off_contracts.Registration.Storage.{emit, require_initialized, require_not_paused}
use scout_off_contracts.Registration.Players.{canonicalize_vitals}
use scout_off_contracts.Registration.Seeding.{admin_seed_player}
use scout_off_contracts.Registration.Scouts.{admin_seed_scout}

-- The derived `PartialEq`.
unfoldable pub role_eq : MigrationRole → MigrationRole → Bool
role_eq player_role player_role = true
role_eq player_role scout_role = false
role_eq scout_role player_role = false
role_eq scout_role scout_role = true

unfoldable pub concat_texts : List Text → List ℕ
concat_texts [] = []
concat_texts (t ∷ ts) = t ++ concat_texts ts

unfoldable pub profile_data_hash : Host → Address → PlayerVitals → List Text → ℕ → ℕ → ℕ → Hash
profile_data_hash host wallet vitals ipfs_hashes player_id registered_at updated_at = host.sha256 (
    host.address_to_string wallet
    ++ (to_be_bytes 4 vitals.age
        ++ (vitals.position
            ++ (vitals.region
                ++ (vitals.nationality
                    ++ (concat_texts ipfs_hashes
                        ++ (to_be_bytes 8 player_id
                            ++ (to_be_bytes 8 registered_at ++ to_be_bytes 8 updated_at))))))))

unfoldable pub region_hash : Host → Text → Hash
region_hash host region = host.sha256 region

unfoldable pub role_byte : MigrationRole → ℕ
role_byte player_role = 0
role_byte scout_role = 1

unfoldable pub migration_message : Host → MigrationAuthorization → List ℕ
migration_message host authorization =
    host.address_to_string authorization.wallet
    ++ (role_byte authorization.role
        ∷ (authorization.profile_data_hash
            ++ (host.address_to_string authorization.new_contract_hint
                ++ (to_be_bytes 8 authorization.nonce ++ to_be_bytes 8 authorization.expires_at))))

unfoldable pub mark_migration_nonce : Address → ℕ → State → State
mark_migration_nonce wallet nonce s = record s {
  migration_nonce = update₂ s.migration_nonce wallet nonce true;
}

-- The zero key stands for an address that is not an account.
unfoldable pub address_to_ed25519_key : Host → Address → Hash
address_to_ed25519_key host address = or_default (replicate 32 0) (host.account_key address)

abbrev pub has_expired : Env → MigrationAuthorization → Bool
has_expired env authorization =
    ltb 0 authorization.expires_at && leb authorization.expires_at env.timestamp

-- The typed checks of both redemptions: role, wallet, expiry and nonce.
unfoldable pub check_authorization :
    Env → MigrationRole → Address → MigrationAuthorization → Call (Unit {0})
check_authorization env role wallet authorization = do
  require_not_paused
  require_initialized
  fail_if (not (role_eq authorization.role role)) invalid_input
  fail_if (not (authorization.wallet == wallet)) invalid_input
  fail_if (has_expired env authorization) invalid_input
  s ← get_state
  fail_if (is_some (s.migration_nonce wallet authorization.nonce)) invalid_input

-- The hash and signature checks, after which the nonce is spent.
unfoldable pub spend_authorization : Env → Address → MigrationAuthorization → Hash → Call (Unit {0})
spend_authorization env wallet authorization data_hash = do
  fail_if (not (bytes_eq authorization.profile_data_hash data_hash)) invalid_input
  or_trap (
      if env.host.ed25519_valid (address_to_ed25519_key env.host wallet)
        (migration_message env.host authorization) authorization.signature
      then some tt
      else none)
  modify (mark_migration_nonce wallet authorization.nonce)

unfoldable pub redeem_migration_player :
    Env → Address → PlayerVitals → List Text → Level → ℕ → ℕ → ℕ → MigrationAuthorization → Call ℕ
redeem_migration_player env wallet vitals ipfs_hashes level player_id registered_at updated_at
      authorization =
    do
      check_authorization env player_role wallet authorization
      canon ← canonicalize_vitals vitals
      spend_authorization env wallet authorization
          (profile_data_hash env.host wallet canon ipfs_hashes player_id registered_at updated_at)
      result ←
          admin_seed_player env wallet canon ipfs_hashes level player_id registered_at updated_at
      emit (migration_redeemed wallet player_role player_id authorization.new_contract_hint)
      pure result

unfoldable pub redeem_migration_scout :
    Env → Address → Text → ℕ → ℕ → Bool → MigrationAuthorization → Call ℕ
redeem_migration_scout env wallet region scout_id registered_at verified authorization = do
  check_authorization env scout_role wallet authorization
  canon_region ← lift (canonicalize_region region)
  spend_authorization env wallet authorization (region_hash env.host canon_region)
  result ← admin_seed_scout env wallet canon_region scout_id registered_at verified
  emit (migration_redeemed wallet scout_role scout_id authorization.new_contract_hint)
  pure result
