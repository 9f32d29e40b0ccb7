-- ===== src/Registration/Tests/Pages.antt =====
-- Tests of discovery of contracts/registration.
use scout_off_contracts.Prelude.{◌≡◌, refl, if◌then◌else◌}
use scout_off_contracts.Shared.Level.{unverified}
use scout_off_contracts.Registration.Indexes.{occurs}
use scout_off_contracts.Registration.Ledger.{run, empty}
use scout_off_contracts.Registration.Discovery.Filter.{searched, is_wanted, searched-occurs}
use scout_off_contracts.Registration.Tests.{canon_vitals}
use scout_off_contracts.Registration.Tests.Players.{calls, calls-IsDirectory}

searched-occurs_example : occurs 2 (searched (run calls empty) canon_vitals.region unverified) ≡ (
    if is_wanted
      ((run calls empty).player 2)
      ((run calls empty).player_level 2)
      canon_vitals.region
      unverified
    then 1
    else 0)
searched-occurs_example =
    searched-occurs (run calls empty) canon_vitals.region unverified 2 calls-IsDirectory refl
