-- ===== src/Registration/Directory.antt =====
-- What the keys of contracts/registration/src/lib.rs have to say about each other: profiles, wallets,
-- levels, the player index, the level indexes and the live counter.
pub mod Listed
pub mod Owned
pub mod Changed
pub mod Calls
use scout_off_contracts.Prelude.{
  ℕ, ◌≤◌, ◌≡◌, Bool, true, false, ◌&&◌, Option, none, some, List, [], if◌then◌else◌, or_default,
  is_some, length, bytes_eq,
}
use scout_off_contracts.Shared.Level.{Level, level_eq}
use scout_off_contracts.Shared.Types.{Address, Text, StoredPlayerProfile}
use scout_off_contracts.Registration.Types.{State}
use scout_off_contracts.Registration.Storage.{region_bucket, level_bucket}
use scout_off_contracts.Registration.Indexes.{occurs}

-- A stored player belongs in the bucket of the stored level and of the profile's region.
abbrev pub belongs : Option StoredPlayerProfile → Option Level → Level → Text → Bool
belongs none k l r = false
belongs (some p) none l r = false
belongs (some p) (some k) l r = level_eq k l && bytes_eq p.vitals.region r

abbrev pub at_level : Option StoredPlayerProfile → Option Level → Level → Bool
at_level none k l = false
at_level (some p) none l = false
at_level (some p) (some k) l = level_eq k l

-- A player is in the player index and in the buckets of one level, once, exactly while its profile
-- is stored.
pub record IsListed (s : State) (id : ℕ) : Type 0 where
  pub levelled : is_some (s.player_level id) ≡ is_some (s.player id)
  pub indexed : occurs id (or_default [] s.player_index) ≡ (if is_some (s.player id) then 1 else 0)
  pub in_region :
      (l : Level) (r : Text)
      → occurs id (region_bucket s l r)
        ≡ (if belongs (s.player id) (s.player_level id) l r then 1 else 0)
  pub in_level :
      (l : Level)
      → occurs id (level_bucket s l)
        ≡ (if at_level (s.player id) (s.player_level id) l then 1 else 0)

-- A stored profile carries its id, which has been allocated, and its wallet's key leads to it.
pub record IsOwned (s : State) (id : ℕ) (profile : StoredPlayerProfile) : Type 0 where
  pub named : profile.player_id ≡ id
  pub keyed : s.player_by_wallet profile.wallet ≡ some id
  pub allocated : id ≤ or_default 0 s.player_counter

pub record IsDirectory (s : State) : Type 0 where
  pub listed : (id : ℕ) → IsListed s id
  pub owned :
      (id : ℕ) (profile : StoredPlayerProfile) → s.player id ≡ some profile → IsOwned s id profile
  pub wallets :
      (wallet : Address) (id : ℕ)
      → s.player_by_wallet wallet ≡ some id
      → (profile : StoredPlayerProfile) × (s.player id ≡ some profile) × (profile.wallet ≡ wallet)
  pub counted : or_default 0 s.live_player_count ≡ length (or_default [] s.player_index)
  pub unset : is_some s.initialized ≡ false → or_default [] s.player_index ≡ []
