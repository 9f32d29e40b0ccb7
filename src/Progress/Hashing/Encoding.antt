-- ===== src/Progress/Hashing/Encoding.antt =====
-- The leaf encoding of contracts/progress/src/lib.rs, read back.
use scout_off_contracts.Prelude.{
  ℕ, zero, suc, ◌*◌, ◌/◌, ◌%◌, ◌<◌, ◌≡◌, refl, sym, ◌∙◌, ap, List, [], ◌∷◌, ◌++◌, arith, length,
  length-append, append-inv,
}
use scout_off_contracts.Shared.Level.{
  Level, unverified, verified_identity, performance_milestones, elite_tier,
}
use scout_off_contracts.Progress.Types.{Address, Host, ProgressEntry}
use scout_off_contracts.Progress.Hashing.{level_code, to_be_bytes, leaf_bytes}

-- How many numbers `w` bytes hold.
abbrev pub byte_words : ℕ → ℕ
byte_words zero = 1
byte_words (suc w) = 256 * byte_words w

-- The fields are within the widths of their types.
pub record Fits (e : ProgressEntry) : Type 0 where
  pub player_fits : e.player_id < byte_words 8
  pub time_fits : e.updated_at < byte_words 8
  pub milestone_fits : e.milestone_ref < byte_words 4
  pub sequence_fits : e.ledger_sequence < byte_words 4

length-to_be_bytes : (w n : ℕ) → length (to_be_bytes w n) ≡ w
unfolding to_be_bytes
length-to_be_bytes zero n = refl
length-to_be_bytes (suc w) n =
    length-append (to_be_bytes w (n / 256)) (n % 256 ∷ [])
    ∙ (omega (arith, length-to_be_bytes w (n / 256)))

-- The big-endian bytes of a number that fits give the number back.
to_be_bytes_injective :
    (w a b : ℕ) → a < byte_words w → b < byte_words w → to_be_bytes w a ≡ to_be_bytes w b → a ≡ b
unfolding to_be_bytes
to_be_bytes_injective zero a b ha hb e = omega arith
to_be_bytes_injective (suc w) a b ha hb e =
    let (high, low) =
      append-inv (to_be_bytes w (a / 256)) (a % 256 ∷ []) (to_be_bytes w (b / 256)) (b % 256 ∷ [])
        (length-to_be_bytes w (a / 256) ∙ sym (length-to_be_bytes w (b / 256))) e in
    let quotient = to_be_bytes_injective w (a / 256) (b / 256) (omega arith) (omega arith) high in
    let remainder : a % 256 ≡ b % 256 = cc low in omega arith

level_code_fits : (l : Level) → level_code l < byte_words 4
unfolding level_code
level_code_fits unverified = omega arith
level_code_fits verified_identity = omega arith
level_code_fits performance_milestones = omega arith
level_code_fits elite_tier = omega arith

of_code : ℕ → Level
of_code zero = unverified
of_code (suc zero) = verified_identity
of_code (suc (suc zero)) = performance_milestones
of_code (suc (suc (suc n))) = elite_tier

of_code-level_code : (l : Level) → of_code (level_code l) ≡ l
unfolding level_code of_code
of_code-level_code unverified = refl
of_code-level_code verified_identity = refl
of_code-level_code performance_milestones = refl
of_code-level_code elite_tier = refl

-- The words of two encodings agree one by one.
word-inv :
    (w a b : ℕ) (xs ys : List ℕ)
    → a < byte_words w
    → b < byte_words w
    → to_be_bytes w a ++ xs ≡ to_be_bytes w b ++ ys
    → (a ≡ b) × (xs ≡ ys)
word-inv w a b xs ys ha hb e =
    let (same, rest) =
      append-inv (to_be_bytes w a) xs (to_be_bytes w b) ys
        (length-to_be_bytes w a ∙ sym (length-to_be_bytes w b)) e in
    (to_be_bytes_injective w a b ha hb same, rest)

level-inv :
    (a b : Level) (xs ys : List ℕ)
    → to_be_bytes 4 (level_code a) ++ xs ≡ to_be_bytes 4 (level_code b) ++ ys
    → (a ≡ b) × (xs ≡ ys)
level-inv a b xs ys e =
    let (same, rest) =
      word-inv 4 (level_code a) (level_code b) xs ys (level_code_fits a) (level_code_fits b) e in
    (sym (of_code-level_code a) ∙ ap of_code same ∙ of_code-level_code b, rest)

-- The words after the address.
abbrev tail_bytes : ProgressEntry → List ℕ
tail_bytes e =
    to_be_bytes 8 e.updated_at ++ (to_be_bytes 4 e.milestone_ref ++ to_be_bytes 4 e.ledger_sequence)

length-tail_bytes : (e : ProgressEntry) → length (tail_bytes e) ≡ 16
length-tail_bytes e =
    let inner = length-append (to_be_bytes 4 e.milestone_ref) (to_be_bytes 4 e.ledger_sequence) in
    let outer =
      length-append (to_be_bytes 8 e.updated_at)
        (to_be_bytes 4 e.milestone_ref ++ to_be_bytes 4 e.ledger_sequence) in
    omega (
      arith,
      inner,
      outer,
      length-to_be_bytes 8 e.updated_at,
      length-to_be_bytes 4 e.milestone_ref,
      length-to_be_bytes 4 e.ledger_sequence,
    )

-- Two entries within the widths of their fields that have the same leaf bytes are the same entry,
-- if the address encoding is injective.
pub leaf_bytes_injective :
    (host : Host)
    → ((a b : Address) → host.address_xdr a ≡ host.address_xdr b → a ≡ b)
    → (e f : ProgressEntry) → Fits e
    → Fits f
    → leaf_bytes host e ≡ leaf_bytes host f
    → e ≡ f
unfolding leaf_bytes
leaf_bytes_injective host distinct e f he hf same =
    let (player, e₁) =
      word-inv 8 e.player_id f.player_id _ _ he.player_fits hf.player_fits (cc same) in
    let (old, e₂) = level-inv e.old_level f.old_level _ _ e₁ in
    let (new, e₃) = level-inv e.new_level f.new_level _ _ e₂ in
    let even =
      sym (length-append (host.address_xdr e.updated_by) (tail_bytes e))
      ∙ ap length e₃
      ∙ length-append (host.address_xdr f.updated_by) (tail_bytes f) in
    let (by, e₄) =
      append-inv (host.address_xdr e.updated_by) (tail_bytes e) (host.address_xdr f.updated_by)
        (tail_bytes f) (omega (arith, even, length-tail_bytes e, length-tail_bytes f)) e₃ in
    let (time, e₅) = word-inv 8 e.updated_at f.updated_at _ _ he.time_fits hf.time_fits e₄ in
    let (milestone, e₆) =
      word-inv 4 e.milestone_ref f.milestone_ref _ _ he.milestone_fits hf.milestone_fits e₅ in
    let sequence =
      to_be_bytes_injective 4 e.ledger_sequence f.ledger_sequence he.sequence_fits hf.sequence_fits
        e₆ in
    let address = distinct e.updated_by f.updated_by by in
    cc (player, old, new, address, time, milestone, sequence)
