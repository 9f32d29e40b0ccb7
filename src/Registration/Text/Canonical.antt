-- ===== src/Registration/Text/Canonical.antt =====
-- The canonical texts of contracts/registration/src/lib.rs, canonicalized again.
use scout_off_contracts.Prelude.{
  ℕ, suc, ◌≤◌, ◌≡◌, refl, subst, Bool, true, false, not, ◌&&◌, List, [], ◌∷◌, map, length, all, leb,
  ltb, ◌==◌, arith, and-inv, Bool-cases, inl, inr, le→ltb, bytes_eq, bytes_eq_sound,
}
use scout_off_contracts.Shared.Types.{Text}
use scout_off_contracts.Contract.{ok}
use scout_off_contracts.Registration.Types.{max_string_len}
use scout_off_contracts.Registration.Text.{
  is_whitespace, is_uppercase, to_uppercase, is_alphanumeric, trim_start, trim_end, trim_upper,
  is_region, is_position, is_nationality, accept_if, contains_text, valid_positions,
  canonicalize_region, canonicalize_position, canonicalize_nationality,
}

-- A text without whitespace and lower case, which fits the buffer.
pub record IsCanonical (t : Text) : Type 0 where
  pub no_whitespace : all (λ b. not (is_whitespace b)) t ≡ true
  pub upper : map to_uppercase t ≡ t
  pub fits : length t ≤ max_string_len

to_uppercase_twice : (b : ℕ) → to_uppercase (to_uppercase b) ≡ to_uppercase b
unfolding to_uppercase
to_uppercase_twice b = ground arith

map-to_uppercase_twice : (t : Text) → map to_uppercase (map to_uppercase t) ≡ map to_uppercase t
map-to_uppercase_twice [] = refl
map-to_uppercase_twice (b ∷ t) = rw (to_uppercase_twice b, map-to_uppercase_twice t)

trim_start_same : (t : Text) → all (λ b. not (is_whitespace b)) t ≡ true → trim_start t ≡ t
unfolding trim_start
trim_start_same [] h = refl
trim_start_same (b ∷ t) h = ground (arith, h)

trim_end_same : (t : Text) → all (λ b. not (is_whitespace b)) t ≡ true → trim_end t ≡ t
unfolding trim_end
trim_end_same [] h = refl
trim_end_same (b ∷ []) h = ground (arith, h)
trim_end_same (b ∷ c ∷ t) h =
    let (first, rest) = and-inv (not (is_whitespace b)) _ h in rw (trim_end_same (c ∷ t) rest)

trim_upper_same : (t : Text) → IsCanonical t → trim_upper t ≡ ok t
unfolding trim_upper
trim_upper_same t h = rw (
  le→ltb max_string_len (length t) h.fits,
  trim_start_same t h.no_whitespace,
  trim_end_same t h.no_whitespace,
  h.upper,
)

-- A text that was accepted passed the test and is in upper case.
accept_if-inv :
    (test : Text → Bool) (input t : Text)
    → accept_if test (trim_upper input) ≡ ok t
    → (test t ≡ true) × (map to_uppercase t ≡ t)
unfolding accept_if trim_upper
accept_if-inv test input t e = elim (Bool-cases (ltb max_string_len (length input))) [
  | inl long ↦ absurd (ground (arith, long))
  | inr short ↦
      let trimmed = trim_end (trim_start input) in
      elim (Bool-cases (test (map to_uppercase trimmed))) [
        | inl passed ↦
            let same : map to_uppercase trimmed ≡ t = ground (arith, short, passed) in
            (
              subst (λ x. test x ≡ true) same passed,
              subst (λ x. map to_uppercase x ≡ x) same (map-to_uppercase_twice trimmed),
            )
        | inr failed ↦ absurd (ground (arith, short, failed))
      ]
]

-- A test that only texts without whitespace pass, and short ones.
accept_if_again :
    (test : Text → Bool)
    → ((t : Text)
        → test t ≡ true
        → (all (λ b. not (is_whitespace b)) t ≡ true) × (length t ≤ max_string_len))
    → (input t : Text) → accept_if test (trim_upper input) ≡ ok t
    → accept_if test (trim_upper t) ≡ ok t
unfolding accept_if
accept_if_again test clean input t e =
    let (passed, upper) = accept_if-inv test input t e in
    let (no_whitespace, fits) = clean t passed in
    rw (
      trim_upper_same t (record { no_whitespace = no_whitespace; upper = upper; fits = fits }),
      passed,
    )

alphanumeric_clean : (b : ℕ) → is_alphanumeric b ≡ true → is_whitespace b ≡ false
unfolding is_alphanumeric is_whitespace is_uppercase
alphanumeric_clean b h = ground arith

alphanumerics_clean :
    (t : Text) → all is_alphanumeric t ≡ true → all (λ b. not (is_whitespace b)) t ≡ true
alphanumerics_clean [] h = refl
alphanumerics_clean (b ∷ t) h =
    let (first, rest) = and-inv (is_alphanumeric b) _ h in
    let clean : is_whitespace b ≡ false = alphanumeric_clean b first in
    rw (clean, alphanumerics_clean t rest)

uppercase_clean : (b : ℕ) → is_uppercase b ≡ true → is_whitespace b ≡ false
unfolding is_whitespace is_uppercase
uppercase_clean b h = ground arith

hyphen_clean : (b : ℕ) → (b == b'-') ≡ true → is_whitespace b ≡ false
unfolding is_whitespace
hyphen_clean b h = ground arith

region_clean :
    (t : Text)
    → is_region t ≡ true
    → (all (λ b. not (is_whitespace b)) t ≡ true) × (length t ≤ max_string_len)
unfolding is_region
region_clean [] h = cc h
region_clean (a ∷ []) h = cc h
region_clean (a ∷ b ∷ []) h =
    let (upper, rest) = and-inv (is_uppercase a && is_uppercase b) _ h in
    let (first, second) = and-inv (is_uppercase a) _ upper in
    (rw (uppercase_clean a first, uppercase_clean b second), omega arith)
region_clean (a ∷ b ∷ c ∷ t) h =
    let first : is_uppercase a ≡ true = ground (arith, h) in
    let second : is_uppercase b ≡ true = ground (arith, h) in
    let hyphen : (c == b'-') ≡ true = ground (arith, h) in
    let tail : all is_alphanumeric t ≡ true = ground (arith, h) in
    let short : suc (suc (suc (length t))) ≤ 6 = ground (arith, h) in
    (
      rw (
        uppercase_clean a first,
        uppercase_clean b second,
        hyphen_clean c hyphen,
        alphanumerics_clean t tail,
      ),
      omega (arith, short),
    )

nationality_clean :
    (t : Text)
    → is_nationality t ≡ true
    → (all (λ b. not (is_whitespace b)) t ≡ true) × (length t ≤ max_string_len)
unfolding is_nationality
nationality_clean [] h = cc h
nationality_clean (a ∷ []) h = cc h
nationality_clean (a ∷ b ∷ []) h =
    let (first, second) = and-inv (is_uppercase a) _ h in
    (rw (uppercase_clean a first, uppercase_clean b second), omega arith)
nationality_clean (a ∷ b ∷ c ∷ t) h = ground (arith, h)

-- A listed text has what every listed text has.
contains_text_holds :
    (test : Text → Bool) (texts : List Text) (t : Text)
    → all test texts ≡ true
    → contains_text texts t ≡ true
    → test t ≡ true
unfolding contains_text
contains_text_holds test [] t every h = cc h
contains_text_holds test (x ∷ xs) t every h =
    let (this, others) = and-inv (test x) _ every in
    elim (Bool-cases (bytes_eq x t)) [
      | inl same ↦ subst (λ y. test y ≡ true) (bytes_eq_sound x t same) this
      | inr apart ↦ contains_text_holds test xs t others (rw apart at h)
    ]

position_clean :
    (t : Text)
    → is_position t ≡ true
    → (all (λ b. not (is_whitespace b)) t ≡ true) × (length t ≤ max_string_len)
unfolding is_position valid_positions is_whitespace
position_clean t h =
    let (some_bytes, listed) = and-inv (not (length t == 0)) _ h in
    let short =
      contains_text_holds (λ x. leb (length x) max_string_len) valid_positions t refl listed in
    (
      contains_text_holds (λ x. all (λ b. not (is_whitespace b)) x) valid_positions t refl listed,
      ground (arith, short),
    )

-- A canonical region is its own canonical form.
pub canonicalize_region_again :
    (region canon : Text)
    → canonicalize_region region ≡ ok canon
    → canonicalize_region canon ≡ ok canon
unfolding canonicalize_region
canonicalize_region_again = accept_if_again is_region region_clean

-- A canonical position is its own canonical form.
pub canonicalize_position_again :
    (position canon : Text)
    → canonicalize_position position ≡ ok canon
    → canonicalize_position canon ≡ ok canon
unfolding canonicalize_position
canonicalize_position_again = accept_if_again is_position position_clean

-- A canonical nationality is its own canonical form.
pub canonicalize_nationality_again :
    (nationality canon : Text)
    → canonicalize_nationality nationality ≡ ok canon
    → canonicalize_nationality canon ≡ ok canon
unfolding canonicalize_nationality
canonicalize_nationality_again = accept_if_again is_nationality nationality_clean
