-- ===== src/Shared/Wiring.antt =====
-- The wiring links and the peer handshake of contracts/shared-types/src/lib.rs.
use text.Mathlib.Text.{◌==◌ as str_eq}
use Prim.Native.String.{String}
use scout_off_contracts.Prelude.{
  ℕ, ◌-◌, Bool, true, false, ◌&&◌, ◌||◌, Option, none, some, List, [], ◌∷◌, ltb, leb, ◌==◌,
  if◌then◌else◌, or_default, is_some, length,
}
use scout_off_contracts.Prelude.Words.{u32_max, sat_add32, checked_add, checked_mul}

pub record WiringLink : Type 0 where
  pub address : Option ℕ
  pub epoch : ℕ

abbrev pub unconfigured : WiringLink
unconfigured = record { address = none; epoch = 0 }

unfoldable pub is_configured : WiringLink → Bool
is_configured link = is_some link.address

-- `addr` and `epoch` are what the two storage keys hold.
unfoldable pub read_wiring_link : Option ℕ → Option ℕ → WiringLink
read_wiring_link addr epoch = record { address = addr; epoch = or_default 0 epoch }

-- The new contents of the two keys: the address and the next epoch, which saturates.
unfoldable pub write_wiring_link : Option ℕ → ℕ → Option ℕ × ℕ
write_wiring_link epoch addr = (some addr, sat_add32 (or_default 0 epoch) 1)

-- What the contract at an address answers to the handshake. `none` is a failed call or a malformed
-- reply; a version is its bytes.
pub record Peer : Type 0 where
  pub kind : Option String
  pub version : Option (List ℕ)

-- The loop over the version's bytes: the major number so far and whether a digit was seen. `none`
-- is the early `return false` on overflow.
unfoldable pub parse_major : List ℕ → ℕ → Bool → Option (ℕ × Bool)
parse_major [] major seen = some (major, seen)
parse_major (b ∷ rest) major seen =
    if leb b'0' b && leb b b'9'
    then elim (checked_mul u32_max major 10) [
      | none ↦ none
      | some m ↦ elim (checked_add u32_max m (b - b'0')) [
        | none ↦ none
        | some m' ↦ parse_major rest m' true
      ]
    ]
    else some (major, seen)

check_version : List ℕ → ℕ → Bool
unfolding parse_major
check_version version min_major =
    if length version == 0 || ltb 32 (length version)
    then false
    else elim (parse_major version 0 false) [
      | none ↦ false
      | some (major, seen) ↦ seen && leb min_major major
    ]

-- Non-contract addresses and malformed replies give `false`.
unfoldable pub verify_peer : Peer → String → ℕ → Bool
unfolding check_version
verify_peer peer expected_kind min_major = elim peer.kind [
  | none ↦ false
  | some k ↦
      if str_eq k expected_kind
      then elim peer.version [ none ↦ false | some version ↦ check_version version min_major ]
      else false
]
