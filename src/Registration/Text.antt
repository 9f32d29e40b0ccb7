-- ===== src/Registration/Text.antt =====
-- The canonical texts of contracts/registration/src/lib.rs: regions, positions and nationalities.
pub mod Canonical
use scout_off_contracts.Prelude.{
  ℕ, ◌-◌, Bool, true, false, not, ◌&&◌, ◌||◌, Option, none, some, List, [], ◌∷◌, map, ltb, leb,
  ◌==◌, if◌then◌else◌, length, drop, get_elem?, or_default, all, bytes_eq,
}
use scout_off_contracts.Shared.Types.{Text, PlayerVitals}
use scout_off_contracts.Contract.{Outcome, ok, err, trap}
use scout_off_contracts.Registration.Types.{ScoutChainError, invalid_input, max_string_len}

-- `is_ascii_whitespace`, `is_ascii_uppercase`, `to_ascii_uppercase` and `is_ascii_alphanumeric`.
unfoldable pub is_whitespace : ℕ → Bool
is_whitespace b = b == 32 || b == 9 || b == 10 || b == 12 || b == 13

unfoldable pub is_uppercase : ℕ → Bool
is_uppercase b = leb b'A' b && leb b b'Z'

unfoldable pub to_uppercase : ℕ → ℕ
to_uppercase b = if leb b'a' b && leb b b'z' then b - 32 else b

unfoldable pub is_alphanumeric : ℕ → Bool
unfolding is_uppercase
is_alphanumeric b = is_uppercase b || (leb b'a' b && leb b b'z') || (leb b'0' b && leb b b'9')

-- The two loops of `trim_upper_into`.
unfoldable pub trim_start : Text → Text
trim_start [] = []
trim_start (b ∷ rest) =
    let trimmed = trim_start rest in if is_whitespace b then trimmed else b ∷ rest

abbrev pub cons_trimmed : ℕ → Text → Text
cons_trimmed b [] = if is_whitespace b then [] else b ∷ []
cons_trimmed b (c ∷ rest) = b ∷ c ∷ rest

unfoldable pub trim_end : Text → Text
trim_end [] = []
trim_end (b ∷ rest) = cons_trimmed b (trim_end rest)

-- The trimmed slice in upper case; the buffer holds `max_string_len` bytes.
unfoldable pub trim_upper : Text → Outcome ScoutChainError Text
trim_upper input =
    if ltb max_string_len (length input)
    then err invalid_input
    else ok (map to_uppercase (trim_end (trim_start input)))

abbrev pub byte_at : Text → ℕ → ℕ
byte_at bytes i = or_default 0 (get_elem? bytes i)

-- The checks of `canonicalize_region` on the trimmed slice.
unfoldable pub is_region : Text → Bool
is_region bytes =
    not (ltb (length bytes) 2 || ltb 6 (length bytes))
    && (is_uppercase (byte_at bytes 0) && is_uppercase (byte_at bytes 1))
    && (if ltb 2 (length bytes)
        then byte_at bytes 2 == b'-'
          && not (ltb (length bytes) 4)
          && all is_alphanumeric (drop 3 bytes)
        else true)

unfoldable pub valid_positions : List Text
valid_positions =
    (b'G' ∷ b'K' ∷ [])
    ∷ (b'C' ∷ b'B' ∷ [])
    ∷ (b'L' ∷ b'B' ∷ [])
    ∷ (b'R' ∷ b'B' ∷ [])
    ∷ (b'F' ∷ b'B' ∷ [])
    ∷ (b'D' ∷ b'M' ∷ [])
    ∷ (b'C' ∷ b'M' ∷ [])
    ∷ (b'A' ∷ b'M' ∷ [])
    ∷ (b'L' ∷ b'M' ∷ [])
    ∷ (b'R' ∷ b'M' ∷ [])
    ∷ (b'L' ∷ b'W' ∷ [])
    ∷ (b'R' ∷ b'W' ∷ [])
    ∷ (b'W' ∷ [])
    ∷ (b'S' ∷ b'T' ∷ [])
    ∷ (b'C' ∷ b'F' ∷ [])
    ∷ (b'S' ∷ b'S' ∷ [])
    ∷ (b'W' ∷ b'B' ∷ [])
    ∷ (b'S' ∷ b'W' ∷ [])
    ∷ []

-- `contains`.
unfoldable pub contains_text : List Text → Text → Bool
contains_text [] t = false
contains_text (x ∷ xs) t = bytes_eq x t || contains_text xs t

unfoldable pub is_position : Text → Bool
unfolding contains_text valid_positions
is_position bytes = not (length bytes == 0) && contains_text valid_positions bytes

unfoldable pub is_nationality : Text → Bool
is_nationality bytes =
    length bytes == 2 && (is_uppercase (byte_at bytes 0) && is_uppercase (byte_at bytes 1))

-- The trimmed slice, if it passes its checks.
unfoldable pub accept_if :
    (Text → Bool) → Outcome ScoutChainError Text → Outcome ScoutChainError Text
accept_if test (ok bytes) = if test bytes then ok bytes else err invalid_input
accept_if test (err e) = err e
accept_if test trap = trap

unfoldable pub canonicalize_region : Text → Outcome ScoutChainError Text
canonicalize_region region = accept_if is_region (trim_upper region)

unfoldable pub canonicalize_position : Text → Outcome ScoutChainError Text
canonicalize_position position = accept_if is_position (trim_upper position)

unfoldable pub canonicalize_nationality : Text → Outcome ScoutChainError Text
canonicalize_nationality nationality = accept_if is_nationality (trim_upper nationality)

-- An empty filter is no filter.
unfoldable pub normalize_filter_region : Text → Outcome ScoutChainError Text
normalize_filter_region region = if length region == 0 then ok [] else canonicalize_region region

unfoldable pub normalize_filter_position : Text → Outcome ScoutChainError Text
normalize_filter_position position =
    if length position == 0 then ok [] else canonicalize_position position
