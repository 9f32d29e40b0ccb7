-- ===== src/Shared/Cid/Valid.antt =====
-- Which identifiers `validate_cid` of contracts/shared-types/src/lib.rs accepts.
use scout_off_contracts.Prelude.{ℕ, ◌≤◌, ◌≢◌, [], ◌∷◌, ◌≡◌, ◌⊎◌, some, List, length, get_elem?}

-- The Bitcoin alphabet of Base58: the digits and letters but `0`, `O`, `I` and `l`.
pub record IsBase58 (b : ℕ) : Type 0 where
  pub alphanumeric : ((48 ≤ b) × (b ≤ 57)) ⊎ (((65 ≤ b) × (b ≤ 90)) ⊎ ((97 ≤ b) × (b ≤ 122)))
  pub not_zero : b ≢ 48
  pub not_upper_o : b ≢ 79
  pub not_upper_i : b ≢ 73
  pub not_lower_l : b ≢ 108

-- The lower-case alphabet of Base32: the letters, and the digits from `2` to `7`.
abbrev pub IsBase32 : ℕ → Type 0
IsBase32 b = ((97 ≤ b) × (b ≤ 122)) ⊎ ((50 ≤ b) × (b ≤ 55))

-- Every element of a list.
abbrev pub Every : (ℕ → Type 0) → List ℕ → Type 0
Every P [] = Unit
Every P (x ∷ xs) = P x × Every P xs

-- `Qm` and 46 characters of Base58.
pub record IsV0 (bytes : List ℕ) : Type 0 where
  pub first : get_elem? bytes 0 ≡ some b'Q'
  pub second : get_elem? bytes 1 ≡ some b'm'
  pub long : length bytes ≡ 46
  pub base58 : Every IsBase58 bytes

-- `baf` and 59 to 128 characters of Base32.
pub record IsV1 (bytes : List ℕ) : Type 0 where
  pub first : get_elem? bytes 0 ≡ some b'b'
  pub second : get_elem? bytes 1 ≡ some b'a'
  pub third : get_elem? bytes 2 ≡ some b'f'
  pub at_least : 59 ≤ length bytes
  pub at_most : length bytes ≤ 128
  pub base32 : Every IsBase32 bytes
