-- ===== src/Registration/Discovery/Selected.antt =====
-- The players that `filter_players` of contracts/registration/src/lib.rs selects.
use scout_off_contracts.Prelude.{
  ℕ, Bool, true, false, ◌&&◌, Option, none, some, List, [], ◌∷◌, ◌==◌, if◌then◌else◌, length,
  bytes_eq,
}
use scout_off_contracts.Shared.Level.{Level, unverified}
use scout_off_contracts.Shared.Types.{Text, PlayerProfile, StoredPlayerProfile}
use scout_off_contracts.Registration.Types.{State}
use scout_off_contracts.Registration.Discovery.Filter.{high_enough}

-- An empty filter wants every position, another one only itself.
abbrev pub wants_position : Text → Text → Bool
wants_position [] position = true
wants_position (b ∷ bs) position = bytes_eq position (b ∷ bs)

-- The profile that a player is shown with.
abbrev pub profile_of : StoredPlayerProfile → Level → PlayerProfile
profile_of stored level = record {
  player_id = stored.player_id;
  wallet = stored.wallet;
  vitals = stored.vitals;
  ipfs_hashes = stored.ipfs_hashes;
  level = level;
  registered_at = stored.registered_at;
  updated_at = stored.updated_at;
}

-- What is shown of an id with the given flag of deactivation, profile and level.
abbrev pub chosen :
    Text → Level → Option Bool → Option StoredPlayerProfile → Option Level → Option PlayerProfile
chosen position min_level (some true) stored level = none
chosen position min_level (some false) none level = none
chosen position min_level (some false) (some p) none = none
chosen position min_level (some false) (some p) (some k) =
    if high_enough k min_level && wants_position position p.vitals.position
    then some (profile_of p k)
    else none
chosen position min_level none none level = none
chosen position min_level none (some p) none = none
chosen position min_level none (some p) (some k) =
    if high_enough k min_level && wants_position position p.vitals.position
    then some (profile_of p k)
    else none

abbrev pub prepend : Option PlayerProfile → List PlayerProfile → List PlayerProfile
prepend none ps = ps
prepend (some p) ps = p ∷ ps

-- What is shown of a list of ids, in order.
abbrev pub selected : State → Text → Level → List ℕ → List PlayerProfile
selected s position min_level [] = []
selected s position min_level (id ∷ ids) =
    prepend (chosen position min_level (s.player_deactivated id) (s.player id) (s.player_level id))
      (selected s position min_level ids)

-- The buckets of a region are of levels that are high enough; the player index is tested for them.
abbrev pub tested_level : Text → Level → Level
tested_level region min_level = if length region == 0 then min_level else unverified
