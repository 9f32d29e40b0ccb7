-- ===== src/Shared/Cid.antt =====
-- `validate_cid` of contracts/shared-types/src/lib.rs, over the bytes of the text.
pub mod Valid
use scout_off_contracts.Prelude.{
  ℕ, Bool, true, false, ◌&&◌, ◌||◌, not, Option, none, some, List, [], ◌∷◌, ltb, leb, ◌==◌,
  if◌then◌else◌, length, get_elem?, all,
}

-- The error messages.
pub data CidError : Type 0 where
  v0_length v0_character v1_length v1_character bad_prefix : CidError

unfoldable pub is_base58btc_char : ℕ → Bool
is_base58btc_char b =
    (leb b'1' b && leb b b'9')
    || (leb b'A' b && leb b b'H')
    || (leb b'J' b && leb b b'N')
    || (leb b'P' b && leb b b'Z')
    || (leb b'a' b && leb b b'k')
    || (leb b'm' b && leb b b'z')

unfoldable pub is_base32_char : ℕ → Bool
is_base32_char b = (leb b'a' b && leb b b'z') || (leb b'2' b && leb b b'7')

-- `bytes.get(i) == Some(b)`
abbrev pub byte_is : List ℕ → ℕ → ℕ → Bool
byte_is bytes i b = elim (get_elem? bytes i) [ none ↦ false | some c ↦ c == b ]

-- `none` is `Ok(())`.
unfoldable pub validate_cid : List ℕ → Option CidError
unfolding is_base58btc_char is_base32_char
validate_cid bytes =
    if byte_is bytes 0 b'Q' && byte_is bytes 1 b'm'
    then (if not (length bytes == 46)
        then some v0_length
        else if all is_base58btc_char bytes
        then none
        else some v0_character)
    else if leb 3 (length bytes)
        && byte_is bytes 0 b'b'
        && byte_is bytes 1 b'a'
        && byte_is bytes 2 b'f'
    then (if not (leb 59 (length bytes) && leb (length bytes) 128)
        then some v1_length
        else if all is_base32_char bytes
        then none
        else some v1_character)
    else some bad_prefix
