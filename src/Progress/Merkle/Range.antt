-- ===== src/Progress/Merkle/Range.antt =====
-- `mth_range` of contracts/progress/src/lib.rs: its steps, its splits and its totality.
use scout_off_contracts.Prelude.{
  ℕ, zero, suc, ◌+◌, ◌-◌, ◌≤◌, ◌<◌, ◌≡◌, sym, ◌∙◌, refl, false, Option, none, some, List, ◌++◌,
  arith, ltb, ◌==◌, length, get_elem?, get_elem?-lt, get_elem?-append_lt,
}
use native.Mathlib.Decide.{dec_lt}
use scout_off_contracts.Prelude.Words.{u32_max}
use scout_off_contracts.Progress.Types.{Host, Hash}
use scout_off_contracts.Progress.Hashing.{node_hash}
use scout_off_contracts.Progress.Merkle.{largest_pow2_lt, mth_fuel, mth_range, ◌>>=◌}
use scout_off_contracts.Progress.Merkle.Pow2.{
  pow2, pow2_pos, largest_pow2_lt_lem, largest_pow2_lt_bounds,
}

module _ (host : Host) where
  -- The root over two subtrees that both returned.
  abbrev pub join_roots : Option Hash → Option Hash → Option Hash
  join_roots left right = do l ← left; r ← right; some (node_hash host l r)

  mth_fuel-one :
      (fuel : ℕ) (leaves : List Hash) (start end : ℕ)
      → end ≡ start + 1
      → mth_fuel host (suc fuel) leaves start end ≡ get_elem? leaves start
  unfolding mth_fuel
  mth_fuel-one fuel leaves start end e = ground arith

  mth_fuel-split :
      (fuel : ℕ) (leaves : List Hash) (start end : ℕ)
      → 2 + start ≤ end
      → let k = largest_pow2_lt (end - start) in
        mth_fuel host (suc fuel) leaves start end
        ≡ join_roots
            (mth_fuel host fuel leaves start (start + k))
            (mth_fuel host fuel leaves (start + k) end)
  unfolding mth_fuel
  mth_fuel-split fuel leaves start end h =
      let a : ltb end start ≡ false = ground arith in
      let b : (end - start == 1) ≡ false = ground arith in rw (a, b)

  -- More fuel than there are leaves changes nothing.
  mth_fuel_enough :
      (f g : ℕ) (leaves : List Hash) (start end : ℕ)
      → start < end
      → end ≤ start + f
      → end ≤ start + g
      → mth_fuel host f leaves start end ≡ mth_fuel host g leaves start end
  mth_fuel_enough zero g leaves start end h a b = absurd (omega arith)
  mth_fuel_enough (suc f) zero leaves start end h a b = absurd (omega arith)
  mth_fuel_enough (suc f) (suc g) leaves start end h a b = elim (dec_lt 1 (end - start)) [
    | no one ↦
        let e : end ≡ start + 1 = omega arith in
        mth_fuel-one f leaves start end e ∙ sym (mth_fuel-one g leaves start end e)
    | yes more ↦
        let k = largest_pow2_lt (end - start) in
        let bounds = largest_pow2_lt_bounds (end - start) more in
        rw (
          mth_fuel-split f leaves start end (omega arith),
          mth_fuel-split g leaves start end (omega arith),
          mth_fuel_enough f g leaves start (start + k) (omega arith) (omega arith) (omega arith),
          mth_fuel_enough f g leaves (start + k) end (omega arith) (omega arith) (omega arith),
        )
  ]

  -- The range of one leaf is that leaf.
  pub mth_range-one :
      (leaves : List Hash) (start end : ℕ)
      → end ≡ start + 1
      → mth_range host leaves start end ≡ get_elem? leaves start
  unfolding mth_range
  mth_range-one leaves start end e =
      mth_fuel_enough (end - start) 1 leaves start end (omega arith) (omega arith) (omega arith)
      ∙ mth_fuel-one 0 leaves start end e

  -- The defining equation, with no fuel in it.
  pub mth_range-step :
      (leaves : List Hash) (start end : ℕ)
      → 2 + start ≤ end
      → let k = largest_pow2_lt (end - start) in
        mth_range host leaves start end
        ≡ join_roots
            (mth_range host leaves start (start + k))
            (mth_range host leaves (start + k) end)
  unfolding mth_range
  mth_range-step leaves start end h =
      let k = largest_pow2_lt (end - start) in
      let bounds = largest_pow2_lt_bounds (end - start) (omega arith) in
      let n = end - start in
      rw (
        mth_fuel_enough n (suc n) leaves start end (omega arith) (omega arith) (omega arith),
        mth_fuel-split n leaves start end h,
        mth_fuel_enough n (start + k - start) leaves start (start + k) (omega arith) (omega arith)
            (omega arith),
        mth_fuel_enough n (end - (start + k)) leaves (start + k) end (omega arith) (omega arith)
            (omega arith),
      )

  -- A perfect left subtree of `2 ^ l` leaves and at most as many to its right are joined by one node.
  pub mth_range-split :
      (leaves : List Hash) (start mid end l : ℕ)
      → mid ≡ start + pow2 l
      → mid < end
      → end ≤ mid + pow2 l
      → end ≤ start + u32_max
      → mth_range host leaves start end
        ≡ join_roots (mth_range host leaves start mid) (mth_range host leaves mid end)
  mth_range-split leaves start mid end l em h a b =
      let k : largest_pow2_lt (end - start) ≡ pow2 l =
        rw (the_length)
          (largest_pow2_lt_lem l (end - mid) (omega arith) (omega arith) (omega arith)) in
      let step = mth_range-step leaves start end (omega (arith, pow2_pos l)) in rw (k, ← em) at step
    where
      the_length : end - start ≡ pow2 l + (end - mid)
      the_length = omega arith

  -- On every non-empty range of the leaves `mth_range` returns a root.
  pub mth_range_total :
      (n : ℕ) (leaves : List Hash) (start end : ℕ)
      → start < end
      → end ≤ start + n
      → end ≤ length leaves
      → (root : Hash) × (mth_range host leaves start end ≡ some root)
  mth_range_total zero leaves start end h a b = absurd (omega arith)
  mth_range_total (suc n) leaves start end h a b = elim (dec_lt 1 (end - start)) [
    | no one ↦
        let (x, e) = get_elem?-lt leaves start (omega arith) in
        (x, mth_range-one leaves start end (omega arith) ∙ e)
    | yes more ↦
        let k = largest_pow2_lt (end - start) in
        let bounds = largest_pow2_lt_bounds (end - start) more in
        let (l, el) =
          mth_range_total n leaves start (start + k) (omega arith) (omega arith) (omega arith) in
        let (r, er) =
          mth_range_total n leaves (start + k) end (omega arith) (omega arith) (omega arith) in
        (node_hash host l r, rw (mth_range-step leaves start end (omega arith), el, er))
  ]

  -- Leaves that are appended later leave the root of a range as it is.
  pub mth_range-append :
      (n : ℕ) (leaves ys : List Hash) (start end : ℕ)
      → start < end
      → end ≤ start + n
      → end ≤ length leaves
      → mth_range host (leaves ++ ys) start end ≡ mth_range host leaves start end
  mth_range-append zero leaves ys start end h a b = absurd (omega arith)
  mth_range-append (suc n) leaves ys start end h a b = elim (dec_lt 1 (end - start)) [
    | no one ↦ rw (
      mth_range-one (leaves ++ ys) start end (omega arith),
      mth_range-one leaves start end (omega arith),
      get_elem?-append_lt leaves ys start (omega arith),
    )
    | yes more ↦
        let k = largest_pow2_lt (end - start) in
        let bounds = largest_pow2_lt_bounds (end - start) more in
        rw (
          mth_range-step (leaves ++ ys) start end (omega arith),
          mth_range-step leaves start end (omega arith),
          mth_range-append n leaves ys start (start + k) (omega arith) (omega arith) (omega arith),
          mth_range-append n leaves ys (start + k) end (omega arith) (omega arith) (omega arith),
        )
  ]

  -- The empty range has no root.
  pub mth_range-none : (leaves : List Hash) (n : ℕ) → n ≡ 0 → mth_range host leaves 0 n ≡ none
  unfolding mth_range
  mth_range-none leaves n e = rw e refl
