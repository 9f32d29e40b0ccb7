-- ===== src/Registration/Tests/Texts.antt =====
-- Tests of the canonical texts of contracts/registration.
use scout_off_contracts.Prelude.{◌≡◌, refl}
use scout_off_contracts.Contract.{ok}
use scout_off_contracts.Registration.Text.{
  accept_if, trim_upper, trim_end, trim_start, is_whitespace, to_uppercase, is_region,
  is_alphanumeric, is_uppercase, canonicalize_region,
}
use scout_off_contracts.Registration.Text.Canonical.{canonicalize_region_again}
use scout_off_contracts.Registration.Tests.{given_vitals, canon_vitals}

region_accepted : canonicalize_region given_vitals.region ≡ ok canon_vitals.region
unfolding canonicalize_region accept_if trim_upper is_region trim_end trim_start is_whitespace
    is_uppercase to_uppercase is_alphanumeric
region_accepted = refl

canonicalize_region_again_example : canonicalize_region canon_vitals.region ≡ ok canon_vitals.region
canonicalize_region_again_example =
    canonicalize_region_again given_vitals.region canon_vitals.region region_accepted
