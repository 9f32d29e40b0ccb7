-- ===== src/Registration/Ledger/Tickets.antt =====
-- Replay of the migration tickets of contracts/registration/src/lib.rs.
use scout_off_contracts.Prelude.{
  ℕ, ◌≡◌, ◌≢◌, refl, ◌∙◌, subst, true, some, List, [], ◌∷◌, ◌++◌, arith, or_default, replicate,
  to_be_bytes,
}
use scout_off_contracts.Shared.Level.{Level}
use scout_off_contracts.Shared.Types.{Address, Hash, Text, PlayerVitals, StoredPlayerProfile}
use scout_off_contracts.Contract.{ok, Outcome}
use scout_off_contracts.Registration.Types.{
  Env, Host, State, Call, MigrationAuthorization, player_role,
}
use scout_off_contracts.Registration.Migration.{
  redeem_migration_player, mark_migration_nonce, profile_data_hash, address_to_ed25519_key,
  migration_message, role_byte, concat_texts,
}
use scout_off_contracts.Registration.Seeding.{seeded_profile}
use scout_off_contracts.Registration.Register.{IsCanon}
use scout_off_contracts.Registration.Text.Canonical.{
  canonicalize_region_again, canonicalize_position_again, canonicalize_nationality_again,
}
use scout_off_contracts.Registration.Redeemed.{redeem_migration_player-Redeemed}
use scout_off_contracts.Registration.Ledger.{Request, run}
use scout_off_contracts.Registration.Ledger.Carried.{run-Carries}

-- A redemption request, of a player's or a scout's ticket, by its arguments.
pub record PlayerTicket : Type 0 where
  pub wallet : Address
  pub vitals : PlayerVitals
  pub ipfs_hashes : List Text
  pub level : Level
  pub player_id : ℕ
  pub registered_at : ℕ
  pub updated_at : ℕ
  pub authorization : MigrationAuthorization

abbrev pub redeem : Env → PlayerTicket → Call ℕ
redeem env k =
    redeem_migration_player env k.wallet k.vitals k.ipfs_hashes k.level k.player_id k.registered_at
      k.updated_at k.authorization

marked :
    (wallet : Address) (nonce : ℕ) (s : State)
    → (mark_migration_nonce wallet nonce s).migration_nonce wallet nonce ≡ some true
unfolding mark_migration_nonce
marked wallet nonce s = ground arith

-- After a player's ticket has been redeemed, and any sequence of later requests, no redemption with the
-- same wallet and nonce returns a player.
pub redeem_migration_player_once :
    (env later : Env) (calls : List (Env × Request)) (k k' : PlayerTicket) (id id' : ℕ)
    (s t u : State)
    → redeem env k s ≡ ok (id, t)
    → k'.wallet ≡ k.wallet
    → k'.authorization.nonce ≡ k.authorization.nonce
    → redeem later k' (run calls t) ≢ ok (id', u)
redeem_migration_player_once env later calls k k' id id' s t u e same_wallet same_nonce again =
    let first =
      redeem_migration_player-Redeemed env k.wallet k.vitals k.ipfs_hashes k.level k.player_id
        k.registered_at k.updated_at k.authorization id s t e in
    let second =
      redeem_migration_player-Redeemed later k'.wallet k'.vitals k'.ipfs_hashes k'.level
        k'.player_id k'.registered_at k'.updated_at k'.authorization id' (run calls t) u again in
    let spent : t.migration_nonce k.wallet k.authorization.nonce ≡ some true =
      cc (first.written, first.seeded.nonces, marked k.wallet k.authorization.nonce s) in
    let kept = (run-Carries calls t).nonces k.wallet k.authorization.nonce spent in
    let unused = second.good.unused in absurd (cc (kept, unused, same_wallet, same_nonce))

ok-inv : {E A : Type 0} {a b : A} {o : Outcome E A} → o ≡ ok a → o ≡ ok b → a ≡ b
ok-inv e f = cc (e, f)

-- Canonicalizing canonical vitals changes nothing.
IsCanon-again :
    {vitals canon canon' : PlayerVitals}
    → IsCanon vitals canon
    → IsCanon canon canon'
    → canon' ≡ canon
IsCanon-again {vitals} {canon} {canon'} h h' =
    let position =
      ok-inv h'.position (canonicalize_position_again vitals.position canon.position h.position) in
    let region = ok-inv h'.region (canonicalize_region_again vitals.region canon.region h.region) in
    let nationality =
      ok-inv h'.nationality
        (canonicalize_nationality_again vitals.nationality canon.nationality h.nationality) in
    cc (h'.age, position, region, nationality)

-- One text after the other.
abbrev pub joined_texts : List Text → List ℕ
joined_texts [] = []
joined_texts (t ∷ ts) = t ++ joined_texts ts

concat_texts-eq-joined_texts : (ts : List Text) → concat_texts ts ≡ joined_texts ts
unfolding concat_texts
concat_texts-eq-joined_texts [] = refl
concat_texts-eq-joined_texts (t ∷ ts) = rw (concat_texts-eq-joined_texts ts)

-- The bytes that fix a profile: every field of it, in this order.
abbrev pub profile_bytes : Host → StoredPlayerProfile → List ℕ
profile_bytes host p =
    host.address_to_string p.wallet
    ++ (to_be_bytes 4 p.vitals.age
        ++ (p.vitals.position
            ++ (p.vitals.region
                ++ (p.vitals.nationality
                    ++ (joined_texts p.ipfs_hashes
                        ++ (to_be_bytes 8 p.player_id
                            ++ (to_be_bytes 8 p.registered_at ++ to_be_bytes 8 p.updated_at)))))))

-- The bytes that a player signs: the wallet, the role 0, a hash, the hint, the nonce and the expiry.
abbrev pub signed_bytes : Host → Address → Hash → MigrationAuthorization → List ℕ
signed_bytes host wallet hash authorization =
    host.address_to_string wallet
    ++ (0
        ∷ (hash
            ++ (host.address_to_string authorization.new_contract_hint
                ++ (to_be_bytes 8 authorization.nonce ++ to_be_bytes 8 authorization.expires_at))))

-- The wallet's key, or zeros where it has none, signed the hash of the profile's bytes.
pub record IsCovered (env : Env) (k : PlayerTicket) (stored : StoredPlayerProfile) : Type 0 where
  pub signed :
      env.host.ed25519_valid
        (or_default (replicate 32 0) (env.host.account_key stored.wallet))
        (signed_bytes env.host stored.wallet
          (env.host.sha256 (profile_bytes env.host stored))
          k.authorization)
        k.authorization.signature
      ≡ true
  pub given :
      (stored.wallet ≡ k.wallet)
      × (stored.player_id ≡ k.player_id)
      × (stored.ipfs_hashes ≡ k.ipfs_hashes)
      × (stored.registered_at ≡ k.registered_at)
      × (stored.updated_at ≡ k.updated_at)
  pub canonical : IsCanon k.vitals stored.vitals

profile_data_hash-eq-sha256 :
    (host : Host) (p : StoredPlayerProfile)
    → profile_data_hash host p.wallet p.vitals p.ipfs_hashes p.player_id p.registered_at
        p.updated_at
      ≡ host.sha256 (profile_bytes host p)
unfolding profile_data_hash to_be_bytes concat_texts
profile_data_hash-eq-sha256 host p = rw (concat_texts-eq-joined_texts p.ipfs_hashes)

migration_message-eq-signed_bytes :
    (host : Host) (authorization : MigrationAuthorization) (wallet : Address) (hash : Hash)
    → authorization.role ≡ player_role
    → authorization.wallet ≡ wallet
    → authorization.profile_data_hash ≡ hash
    → migration_message host authorization ≡ signed_bytes host wallet hash authorization
unfolding migration_message role_byte
migration_message-eq-signed_bytes host authorization wallet hash role same_wallet same_hash =
    rw (role_byte, role, same_wallet, same_hash)

-- A redemption that returned stores a profile of the given data, with the canonical vitals. The
-- signature is one by the wallet's key over the wallet, the player's role, the hash of all fields of
-- the stored profile, the hint, the nonce and the expiry; the level that is stored beside the profile is
-- in none of these bytes. The redemption was called with the authorisation of the administrator.
pub redeem_migration_player-IsCovered :
    (env : Env) (k : PlayerTicket) (id : ℕ) (s t : State)
    → redeem env k s ≡ ok (id, t)
    → (stored : StoredPlayerProfile) × (admin : Address) × (t.player k.player_id ≡ some stored)
      × IsCovered env k stored
      × (s.admin ≡ some admin)
      × (env.authorized admin ≡ true)
unfolding mark_migration_nonce address_to_ed25519_key
redeem_migration_player-IsCovered env k id s t e =
    let r =
      redeem_migration_player-Redeemed env k.wallet k.vitals k.ipfs_hashes k.level k.player_id
        k.registered_at k.updated_at k.authorization id s t e in
    let same = IsCanon-again r.canonical r.seeded.canonical in
    let stored =
      seeded_profile k.wallet r.canon k.ipfs_hashes k.player_id k.registered_at k.updated_at in
    let message =
      migration_message-eq-signed_bytes env.host k.authorization k.wallet
        (env.host.sha256 (profile_bytes env.host stored)) r.good.for_role r.good.for_wallet
        (r.signed.hashed ∙ profile_data_hash-eq-sha256 env.host stored) in
    (
      seeded_profile k.wallet r.canon k.ipfs_hashes k.player_id k.registered_at k.updated_at,
      r.seeded.admin,
      cc (r.written, r.seeded.stored, same),
      record {
        signed =
            subst
              (λ bytes.
                env.host.ed25519_valid (or_default (replicate 32 0) (env.host.account_key k.wallet))
                  bytes k.authorization.signature
                ≡ true)
              message r.signed.signed;
        given = (refl, refl, refl, refl, refl);
        canonical = r.canonical;
      },
      r.seeded.appointed,
      r.seeded.authorized,
    )
