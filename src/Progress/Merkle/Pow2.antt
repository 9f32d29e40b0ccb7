-- ===== src/Progress/Merkle/Pow2.antt =====
-- The split point of the tree: `largest_pow2_lt` of contracts/progress/src/lib.rs.
use native.Mathlib.Decide.{dec_lt}
use native.Mathlib.Numerals.{add-one}
use scout_off_contracts.Prelude.{ℕ, zero, suc, ◌+◌, ◌*◌, ◌≤◌, ◌<◌, ◌≡◌, refl, arith}
use scout_off_contracts.Prelude.Words.{u32_max, sat_mul32}
use scout_off_contracts.Progress.Merkle.{pow2_loop, largest_pow2_lt}

-- Powers of two, by recursion.
unfoldable pub pow2 : ℕ → ℕ
pow2 zero = 1
pow2 (suc l) = 2 * pow2 l

pub pow2_pos : (l : ℕ) → 0 < pow2 l
unfolding pow2
pow2_pos zero = omega arith
pow2_pos (suc l) = omega (arith, pow2_pos l)

pub pow2_next : (l : ℕ) → pow2 (l + 1) ≡ 2 * pow2 l
unfolding pow2
pow2_next l = rw add-one

pub pow2_mono : (a b : ℕ) → a ≤ b → pow2 a ≤ pow2 b
unfolding pow2
pow2_mono zero b h = pow2_pos b
pow2_mono (suc a) zero h = elim h [ ]
pow2_mono (suc a) (suc b) h = omega (arith, pow2_mono a b (omega arith))

-- Below a lower power there is room for as much again.
pub pow2_double : (a b : ℕ) → a < b → 2 * pow2 a ≤ pow2 b
unfolding pow2
pow2_double a b h = pow2_mono (suc a) b h

-- The exponent of a power within a `u32`.
pow2_exponent : (l : ℕ) → pow2 l ≤ u32_max → l < 32
unfolding pow2
pow2_exponent l h = elim (dec_lt l 32) [
  | yes p ↦ p
  | no p ↦ absurd (omega (arith, pow2_mono 32 l (omega arith)))
]

-- From `2 ^ j` the loop doubles up to `2 ^ l`, with one round to spare.
pow2_loop_lem :
    (d fuel n j l m : ℕ)
    → d + j ≡ l
    → d < fuel
    → n ≡ pow2 l + m
    → 0 < m
    → m ≤ pow2 l
    → n ≤ u32_max
    → pow2_loop fuel n (pow2 j) ≡ pow2 l
unfolding pow2_loop
pow2_loop_lem d zero n j l m e f en pm lm b = elim f [ ]
pow2_loop_lem zero (suc fuel) n j l m e f en pm lm b =
    let jl : j ≡ l = omega arith in rw jl (ground arith)
pow2_loop_lem (suc d) (suc fuel) n j l m e f en pm lm b =
    ground (
      arith,
      step,
      pow2_loop_lem d fuel n (suc j) l m (omega arith) (omega arith) en pm lm b,
      below,
    )
  where
    below : 2 * pow2 j ≤ pow2 l
    below = pow2_double j l (omega arith)

    step : sat_mul32 (pow2 j) 2 ≡ pow2 (suc j)
    step = unfold pow2 in ground (arith, below)

-- The largest power of two below `2 ^ l + m`, for `0 < m ≤ 2 ^ l` and within `u32`, is `2 ^ l`.
pub largest_pow2_lt_lem :
    (l m : ℕ) → 0 < m → m ≤ pow2 l → pow2 l + m ≤ u32_max → largest_pow2_lt (pow2 l + m) ≡ pow2 l
unfolding largest_pow2_lt pow2
largest_pow2_lt_lem l m pm lm b =
    pow2_loop_lem l 32 (pow2 l + m) 0 l m (omega arith) (pow2_exponent l (omega arith)) refl pm lm b

pow2_loop_bounds :
    (fuel n k : ℕ) → 0 < k → k < n → (0 < pow2_loop fuel n k) × (pow2_loop fuel n k < n)
unfolding pow2_loop
pow2_loop_bounds zero n k p h = (p, h)
pow2_loop_bounds (suc fuel) n k p h = ground (arith, pow2_loop_bounds fuel n (sat_mul32 k 2))

-- A range of two leaves or more is split into two shorter ranges.
pub largest_pow2_lt_bounds : (n : ℕ) → 2 ≤ n → (0 < largest_pow2_lt n) × (largest_pow2_lt n < n)
unfolding largest_pow2_lt
largest_pow2_lt_bounds n h = pow2_loop_bounds 32 n 1 (omega arith) h

-- A number of two or more is a power of two and a rest that is not larger.
pub pow2_split : (n : ℕ) → 2 ≤ n → (l : ℕ) × (m : ℕ) × (n ≡ pow2 l + m) × (0 < m) × (m ≤ pow2 l)
unfolding pow2
pow2_split zero h = absurd (omega arith)
pow2_split (suc zero) h = absurd (omega arith)
pow2_split (suc (suc zero)) h = (0, 1, omega arith, omega arith, omega arith)
pow2_split (suc (suc (suc n))) h =
    let (l, m, e, p, q) = pow2_split (suc (suc n)) (omega arith) in
    elim (dec_lt m (pow2 l)) [
      | yes room ↦ (l, m + 1, omega arith, omega arith, omega arith)
      | no full ↦ (suc l, 1, omega arith, omega arith, omega (arith, pow2_pos l))
    ]

-- Both parts of a split range of at most `2 ^ (d + 1)` leaves have at most `2 ^ d`.
pub largest_pow2_lt_halves :
    (n d : ℕ)
    → 2 ≤ n
    → n ≤ u32_max
    → n ≤ pow2 (suc d)
    → (largest_pow2_lt n ≤ pow2 d) × (n ≤ largest_pow2_lt n + pow2 d)
largest_pow2_lt_halves n d h b w =
    let (l, m, e, p, q) = pow2_split n h in
    let k : largest_pow2_lt n ≡ pow2 l = rw e (largest_pow2_lt_lem l m p q (omega arith)) in
    let small : pow2 l ≤ pow2 d = elim (dec_lt d l) [
      | yes above ↦ absurd (omega (arith, pow2_mono (suc d) l above))
      | no below ↦ pow2_mono l d (omega arith)
    ] in
    (omega arith, omega arith)
