-- ===== src/Progress/Merkle.antt =====
-- The RFC 6962 tree, its frontier and its audit paths, from contracts/progress/src/lib.rs.
-- `none` is a trap: an index out of range, or a `u32` subtraction below 0. The recursions of the
-- source run on fuel, given in full by `mth_range`, `frontier_append` and `path_range`.
pub mod Pow2
pub mod Range
pub mod Frontier
pub mod Paths
use scout_off_contracts.Prelude.{
  ℕ, zero, suc, ◌+◌, ◌-◌, min, Bool, true, false, Option, none, some, List, [], ◌∷◌, ◌++◌, ltb,
  ◌==◌, if◌then◌else◌, length, get_elem?, take,
}
use scout_off_contracts.Prelude.Words.{sat_mul32}
use scout_off_contracts.Progress.Types.{Host, Hash, ProgressEntry, HistoryProofStep, FrontierPeak}
use scout_off_contracts.Progress.Hashing.{leaf_hash, node_hash, zero_hash}

pow2_loop : ℕ → ℕ → ℕ → ℕ
pow2_loop zero n k = k
pow2_loop (suc fuel) n k =
    let rest = pow2_loop fuel n (sat_mul32 k 2) in if ltb (sat_mul32 k 2) n then rest else k

-- Thirty-two doublings pass every `u32`.
unfoldable pub largest_pow2_lt : ℕ → ℕ
unfolding pow2_loop
largest_pow2_lt n = pow2_loop 32 n 1

infixl 5 ◌>>=◌
abbrev pub ◌>>=◌ : {A B : Type 0} → Option A → (A → Option B) → Option B
none >>= f = none
some a >>= f = f a

mth_fuel : Host → ℕ → List Hash → ℕ → ℕ → Option Hash
mth_fuel host zero leaves start end = none
mth_fuel host (suc fuel) leaves start end =
    let k = largest_pow2_lt (end - start) in
    let left = mth_fuel host fuel leaves start (start + k) in
    let right = mth_fuel host fuel leaves (start + k) end in
    if ltb end start
    then none
    else if end - start == 1
    then get_elem? leaves start
    else (do l ← left; r ← right; some (node_hash host l r))

unfoldable pub mth_range : Host → List Hash → ℕ → ℕ → Option Hash
unfolding mth_fuel
mth_range host leaves start end = mth_fuel host (end - start) leaves start end

-- The loop of `frontier_root` over the peaks after the first.
unfoldable pub fold_peaks : Host → Hash → List FrontierPeak → Hash
fold_peaks host acc [] = acc
fold_peaks host acc (p ∷ ps) = fold_peaks host (node_hash host p.hash acc) ps

unfoldable pub frontier_root : Host → List FrontierPeak → Hash
unfolding fold_peaks
frontier_root host [] = zero_hash
frontier_root host (p ∷ ps) = fold_peaks host p.hash ps

-- The scan for the carry's level from index `j - 1` down to 0.
unfoldable pub find_level : List FrontierPeak → ℕ → ℕ → Option ℕ
find_level frontier carry_level zero = none
find_level frontier carry_level (suc j) =
    let rest = find_level frontier carry_level j in
    elim (get_elem? frontier j) [
      | none ↦ none
      | some p ↦ if p.level == carry_level then some j else rest
    ]

-- `Vec::remove`.
unfoldable pub remove_at {ℓ} : {A : Type ℓ} → List A → ℕ → List A
remove_at [] i = []
remove_at (x ∷ xs) zero = xs
remove_at (x ∷ xs) (suc i) = x ∷ remove_at xs i

append_loop : Host → ℕ → List FrontierPeak → ℕ → Hash → Option (List FrontierPeak)
append_loop host zero frontier carry_level carry_hash = none
append_loop host (suc fuel) frontier carry_level carry_hash =
    elim (find_level frontier carry_level (length frontier)) [
      | none ↦ some (record { level = carry_level; hash = carry_hash } ∷ frontier)
      | some i ↦ elim (get_elem? frontier i) [
        | none ↦ none
        | some existing ↦
            append_loop host fuel (remove_at frontier i) (carry_level + 1)
              (node_hash host existing.hash carry_hash)
      ]
    ]

-- Each round but the last removes a peak, so one round more than there are peaks is enough.
unfoldable pub frontier_append : Host → List FrontierPeak → Hash → Option (List FrontierPeak)
unfolding append_loop find_level remove_at
frontier_append host frontier leaf = append_loop host (suc (length frontier)) frontier 0 leaf

-- The loop of `build_frontier` over the entries below its bound.
unfoldable pub append_entries :
    Host → List FrontierPeak → List ProgressEntry → Option (List FrontierPeak)
append_entries host frontier [] = some frontier
append_entries host frontier (e ∷ es) =
    frontier_append host frontier (leaf_hash host e) >>= λ frontier'.
    append_entries host frontier' es

unfoldable pub build_frontier : Host → List ProgressEntry → ℕ → Option (List FrontierPeak)
unfolding append_entries
build_frontier host history count =
    append_entries host [] (take (min count (length history)) history)

path_fuel : Host → ℕ → List Hash → ℕ → ℕ → ℕ → Option (List HistoryProofStep)
path_fuel host zero leaves index start end = none
path_fuel host (suc fuel) leaves index start end =
    let k = largest_pow2_lt (end - start) in
    let left = (do
      proof ← path_fuel host fuel leaves index start (start + k)
      right_root ← mth_range host leaves (start + k) end
      some (proof ++ record { sibling = right_root; sibling_is_right = true } ∷ [])) in
    let right = (do
      proof ← path_fuel host fuel leaves index (start + k) end
      left_root ← mth_range host leaves start (start + k)
      some (proof ++ record { sibling = left_root; sibling_is_right = false } ∷ [])) in
    if ltb end start
    then none
    else if end - start == 1
    then some []
    else if ltb index start
    then none
    else if ltb (index - start) k
    then left
    else right

-- The steps that `path_range` pushes onto an empty proof.
unfoldable pub path_range : Host → List Hash → ℕ → ℕ → ℕ → Option (List HistoryProofStep)
unfolding path_fuel
path_range host leaves index start end = path_fuel host (end - start) leaves index start end

-- The loop of `compute_root_from_proof`.
unfoldable pub replay_steps : Host → Hash → List HistoryProofStep → Hash
replay_steps host current [] = current
replay_steps host current (step ∷ rest) =
    replay_steps host
      (if step.sibling_is_right
        then node_hash host current step.sibling
        else node_hash host step.sibling current)
      rest

unfoldable pub compute_root_from_proof : Host → ProgressEntry → List HistoryProofStep → Hash
unfolding replay_steps
compute_root_from_proof host entry proof = replay_steps host (leaf_hash host entry) proof
