-- ===== src/Progress/Merkle/Paths.antt =====
-- The audit paths of contracts/progress/src/lib.rs: `path_range` and the replay of its steps.
use native.Mathlib.Decide.{dec_lt}
use scout_off_contracts.Prelude.{
  ℕ, zero, suc, ◌+◌, ◌-◌, ◌≤◌, ◌<◌, ◌≡◌, refl, sym, ◌∙◌, ap, true, false, some, List, [], ◌∷◌, ◌++◌,
  arith, ltb, ◌==◌, length, length-append, get_elem?, if◌then◌else◌,
}
use scout_off_contracts.Prelude.Words.{u32_max}
use scout_off_contracts.Progress.Types.{Host, Hash, HistoryProofStep}
use scout_off_contracts.Progress.Hashing.{node_hash}
use scout_off_contracts.Progress.Merkle.{
  largest_pow2_lt, mth_range, path_fuel, path_range, replay_steps,
}
use scout_off_contracts.Progress.Merkle.Pow2.{pow2, largest_pow2_lt_bounds, largest_pow2_lt_halves}
use scout_off_contracts.Progress.Merkle.Range.{mth_range-one, mth_range-step, mth_range_total}

module _ (host : Host) where
  -- The hash of one step over the hash so far.
  abbrev pub step_hash : Hash → HistoryProofStep → Hash
  step_hash current step =
      if step.sibling_is_right
      then node_hash host current step.sibling
      else node_hash host step.sibling current

  replay_steps-snoc :
      (proof : List HistoryProofStep) (current : Hash) (step : HistoryProofStep)
      → replay_steps host current (proof ++ step ∷ [])
        ≡ step_hash (replay_steps host current proof) step
  unfolding replay_steps
  replay_steps-snoc [] current step = refl
  replay_steps-snoc (s ∷ proof) current step = replay_steps-snoc proof (step_hash current s) step

  path_fuel-left :
      (fuel : ℕ) (leaves : List Hash) (index start end : ℕ) {proof : List HistoryProofStep}
      {root : Hash}
      → 2 + start ≤ end
      → start ≤ index
      → let k = largest_pow2_lt (end - start) in
        index < start + k
        → path_fuel host fuel leaves index start (start + k) ≡ some proof
        → mth_range host leaves (start + k) end ≡ some root
        → path_fuel host (suc fuel) leaves index start end
          ≡ some (proof ++ record { sibling = root; sibling_is_right = true } ∷ [])
  unfolding path_fuel
  path_fuel-left fuel leaves index start end h lo hi ep er =
      let a : ltb end start ≡ false = ground arith in
      let b : (end - start == 1) ≡ false = ground arith in
      let c : ltb index start ≡ false = ground arith in
      let d : ltb (index - start) (largest_pow2_lt (end - start)) ≡ true = ground arith in
      rw (a, b, c, d, ep, er)

  path_fuel-right :
      (fuel : ℕ) (leaves : List Hash) (index start end : ℕ) {proof : List HistoryProofStep}
      {root : Hash}
      → 2 + start ≤ end
      → let k = largest_pow2_lt (end - start) in
        start + k ≤ index
        → path_fuel host fuel leaves index (start + k) end ≡ some proof
        → mth_range host leaves start (start + k) ≡ some root
        → path_fuel host (suc fuel) leaves index start end
          ≡ some (proof ++ record { sibling = root; sibling_is_right = false } ∷ [])
  unfolding path_fuel
  path_fuel-right fuel leaves index start end h lo ep er =
      let a : ltb end start ≡ false = ground arith in
      let b : (end - start == 1) ≡ false = ground arith in
      let c : ltb index start ≡ false = ground arith in
      let d : ltb (index - start) (largest_pow2_lt (end - start)) ≡ false = ground arith in
      rw (a, b, c, d, ep, er)

  depth_pred :
      (start end depth : ℕ)
      → 1 < end - start
      → end ≤ start + pow2 depth
      → (half : ℕ) × (depth ≡ suc half)
  unfolding pow2
  depth_pred start end zero h d = absurd (omega arith)
  depth_pred start end (suc half) h d = (half, refl)

  -- What an audit path of `leaf` in a range is: it replays to the range's root, in `depth` steps.
  abbrev pub IsPath : List Hash → ℕ → ℕ → Hash → ℕ → List HistoryProofStep → Type 0
  IsPath leaves start end leaf depth proof =
      (mth_range host leaves start end ≡ some (replay_steps host leaf proof))
      × (length proof ≤ depth)

  path_fuel_lem_one :
      (fuel : ℕ) (leaves : List Hash) (index start end depth : ℕ) {leaf : Hash}
      → start ≤ index
      → index < end
      → end ≤ start + 1
      → get_elem? leaves index ≡ some leaf
      → (proof : List HistoryProofStep) × (path_fuel host (suc fuel) leaves index start end
          ≡ some proof)
        × IsPath leaves start end leaf depth proof
  unfolding path_fuel replay_steps
  path_fuel_lem_one fuel leaves index start end depth lo hi h e =
      let same : index ≡ start = omega arith in
      (
        [],
        ground arith,
        (mth_range-one host leaves start end (omega arith) ∙ (rw same at e), omega arith),
      )

  path_fuel_lem :
      (fuel : ℕ) (leaves : List Hash) (index start end depth : ℕ) {leaf : Hash}
      → start ≤ index
      → index < end
      → end ≤ start + fuel
      → end ≤ length leaves
      → end ≤ u32_max
      → end ≤ start + pow2 depth
      → get_elem? leaves index ≡ some leaf
      → (proof : List HistoryProofStep) × (path_fuel host fuel leaves index start end ≡ some proof)
        × IsPath leaves start end leaf depth proof
  path_fuel_lem zero leaves index start end depth lo hi f b w d e = absurd (omega arith)
  path_fuel_lem (suc fuel) leaves index start end depth lo hi f b w d e =
      elim (dec_lt 1 (end - start)) [
        | no one ↦ path_fuel_lem_one fuel leaves index start end depth lo hi (omega arith) e
        | yes more ↦
            let k = largest_pow2_lt (end - start) in
            let bounds = largest_pow2_lt_bounds (end - start) more in
            let (half, ed) = depth_pred start end depth more d in
            let halves =
              largest_pow2_lt_halves (end - start) half more (omega arith)
                (rw (← ed) (omega arith)) in
            let all = length leaves in
            elim (dec_lt index (start + k)) [
              | yes left ↦
                  let (proof, ep, (rest, short)) =
                    path_fuel_lem fuel leaves index start (start + k) half lo left (omega arith)
                      (omega arith) (omega arith) (omega arith) e in
                  let (root, er) =
                    mth_range_total host all leaves (start + k) end (omega arith) (omega arith) b in
                  (
                    proof ++ record { sibling = root; sibling_is_right = true } ∷ [],
                    path_fuel-left fuel leaves index start end (omega arith) lo left ep er,
                    (
                      rw (mth_range-step host leaves start end (omega arith), rest, er)
                          (ap some (sym (replay_steps-snoc proof _ _))),
                      rw length-append (omega arith),
                    ),
                  )
              | no right ↦
                  let (proof, ep, (rest, short)) =
                    path_fuel_lem fuel leaves index (start + k) end half (omega arith) hi
                      (omega arith) b w (omega arith) e in
                  let (root, er) =
                    mth_range_total host all leaves start (start + k) (omega arith) (omega arith)
                      (omega arith) in
                  (
                    proof ++ record { sibling = root; sibling_is_right = false } ∷ [],
                    path_fuel-right fuel leaves index start end (omega arith) (omega arith) ep er,
                    (
                      rw (mth_range-step host leaves start end (omega arith), rest, er)
                          (ap some (sym (replay_steps-snoc proof _ _))),
                      rw length-append (omega arith),
                    ),
                  )
            ]
      ]

  -- For every leaf of a range of at most `2 ^ depth` leaves, within `u32`, `path_range` returns, and its
  -- at most `depth` steps replay from the leaf to the root of the range.
  pub path_range-IsPath :
      (leaves : List Hash) (index start end depth : ℕ) {leaf : Hash}
      → start ≤ index
      → index < end
      → end ≤ length leaves
      → end ≤ u32_max
      → end ≤ start + pow2 depth
      → get_elem? leaves index ≡ some leaf
      → (proof : List HistoryProofStep) × (path_range host leaves index start end ≡ some proof)
        × IsPath leaves start end leaf depth proof
  unfolding path_range
  path_range-IsPath leaves index start end depth lo hi b w d e =
      path_fuel_lem (end - start) leaves index start end depth lo hi (omega arith) b w d e
