-- ===== src/Progress/Queries/Descent.antt =====
-- From the root that a proof replays to down to the leaf of its entry, for `verify_history_proof` of
-- contracts/progress/src/lib.rs, and the strings that are hashed on the way.
use native.Mathlib.Decide.{dec_lt}
use scout_off_contracts.Prelude.{
  ℕ, zero, suc, ◌+◌, ◌-◌, ◌≤◌, ◌<◌, ◌≡◌, refl, sym, ◌∙◌, ap, Bool, true, false, some, List, [], ◌∷◌,
  ◌++◌, arith, if◌then◌else◌, length, length-map, append-inv, get_elem?, Bool-cases, inl, inr, ◌⊎◌,
}
use scout_off_contracts.Progress.Types.{Hash, Host, ProgressEntry, HistoryProofStep}
use scout_off_contracts.Progress.Hashing.{leaf_bytes, leaf_hash, node_hash, leaf_hashes}
use scout_off_contracts.Progress.Merkle.{
  largest_pow2_lt, mth_range, replay_steps, compute_root_from_proof,
}
use scout_off_contracts.Progress.Merkle.Pow2.{largest_pow2_lt_bounds}
use scout_off_contracts.Progress.Merkle.Range.{mth_range-one, mth_range-step, mth_range_total}
use scout_off_contracts.Progress.Merkle.Paths.{step_hash}

-- A string that the tree of a history hashes: a leaf's, or that of a node over two ranges.
pub data TreeInput (host : Host) (history : List ProgressEntry) (x : List ℕ) : Type 0 where
  leaf_input :
      (i : ℕ) (e : ProgressEntry)
      → get_elem? history i ≡ some e
      → x ≡ leaf_bytes host e
      → TreeInput host history x
  node_input :
      (start mid end : ℕ) (left right : Hash)
      → start < mid
      → mid < end
      → end ≤ length history
      → mth_range host (leaf_hashes host history) start mid ≡ some left
      → mth_range host (leaf_hashes host history) mid end ≡ some right
      → x ≡ 1 ∷ (left ++ right)
      → TreeInput host history x

-- A string that the replay of a proof over a hash hashes.
abbrev pub ReplayInput : Host → Hash → List HistoryProofStep → List ℕ → Type 0
ReplayInput host current [] x = ⊥
ReplayInput host current (step ∷ rest) x =
    (x ≡ 1 ∷ (if step.sibling_is_right then current ++ step.sibling else step.sibling ++ current))
    ⊎ ReplayInput host (step_hash host current step) rest x

-- No string that the check of the entry hashes collides with one that the tree hashes.
abbrev pub NoCollision : Host → List ProgressEntry → ProgressEntry → List HistoryProofStep → Type 0
NoCollision host history entry proof =
    (x y : List ℕ)
    → (x ≡ leaf_bytes host entry) ⊎ ReplayInput host (leaf_hash host entry) proof x
    → TreeInput host history y
    → host.sha256 x ≡ host.sha256 y
    → x ≡ y

-- The siblings are `BytesN<32>`.
abbrev pub AreHashes : List HistoryProofStep → Type 0
AreHashes [] = Unit
AreHashes (step ∷ rest) = (length step.sibling ≡ 32) × AreHashes rest

-- Which side of a node a hash stands on.
sides :
    (b : Bool) (current sibling left right : Hash)
    → length current ≡ 32
    → length sibling ≡ 32
    → length left ≡ 32
    → (if b then current ++ sibling else sibling ++ current) ≡ left ++ right
    → (left ≡ current) ⊎ (right ≡ current)
sides true current sibling left right c s l e =
    inl (sym (append-inv current sibling left right (c ∙ sym l) e).0)
sides false current sibling left right c s l e =
    inr (sym (append-inv sibling current left right (s ∙ sym l) e).1)

step_hash-eq :
    (host : Host) (current : Hash) (step : HistoryProofStep)
    → step_hash host current step
      ≡ host.sha256
          (1 ∷ (if step.sibling_is_right then current ++ step.sibling else step.sibling ++ current))
unfolding node_hash
step_hash-eq host current step = elim (Bool-cases step.sibling_is_right) [
  | inl right ↦ rw right
  | inr left ↦ rw left
]

get_elem?-map-inv :
    (host : Host) (es : List ProgressEntry) (i : ℕ) (h : Hash)
    → get_elem? (leaf_hashes host es) i ≡ some h
    → (e : ProgressEntry) × (get_elem? es i ≡ some e) × (h ≡ leaf_hash host e)
unfolding leaf_hashes
get_elem?-map-inv host [] i h q = cc q
get_elem?-map-inv host (e ∷ es) zero h q = (e, refl, cc q)
get_elem?-map-inv host (e ∷ es) (suc i) h q = get_elem?-map-inv host es i h q

module _ (host : Host) (history : List ProgressEntry) where
  abbrev leaves : List Hash
  leaves = leaf_hashes host history

  -- The root of a range is a leaf's hash, or a node's over two parts.
  range_root-inv :
      (start end : ℕ) (h : Hash)
      → start < end
      → end ≤ length history
      → mth_range host leaves start end ≡ some h
      → ((e : ProgressEntry) × (get_elem? history start ≡ some e) × (h ≡ leaf_hash host e))
        ⊎ ((mid : ℕ) × (left : Hash) × (right : Hash) × (start < mid)
            × (mid < end)
            × (mth_range host leaves start mid ≡ some left)
            × (mth_range host leaves mid end ≡ some right)
            × (h ≡ node_hash host left right))
  unfolding leaf_hashes
  range_root-inv start end h some_leaf inside e = elim (dec_lt 1 (end - start)) [
    | no one ↦ inl (
        get_elem?-map-inv host history start h
          (sym (mth_range-one host leaves start end (omega arith)) ∙ e))
    | yes more ↦
        let bounds = largest_pow2_lt_bounds (end - start) more in
        let mid = start + largest_pow2_lt (end - start) in
        let all = length-map (leaf_hash host) history in
        let (left, el) =
          mth_range_total host (length history) leaves start mid (omega (arith, bounds))
            (omega (arith, bounds)) (omega (arith, bounds, all)) in
        let (right, er) =
          mth_range_total host (length history) leaves mid end (omega (arith, bounds))
            (omega (arith, bounds)) (omega (arith, bounds, all)) in
        let joined : mth_range host leaves start end ≡ some (node_hash host left right) =
          rw (mth_range-step host leaves start end (omega arith), el, er) in
        inr (mid, left, right, omega (arith, bounds), omega (arith, bounds), el, er, cc (e, joined))
  ]

  module _ (wide : (x : List ℕ) → length (host.sha256 x) ≡ 32) where
    length-range_root :
        (start end : ℕ) (h : Hash)
        → start < end
        → end ≤ length history
        → mth_range host leaves start end ≡ some h
        → length h ≡ 32
    unfolding leaf_hash node_hash
    length-range_root start end h some_leaf inside e =
        elim (range_root-inv start end h some_leaf inside e) [
          | inl (x, ex, same) ↦ ap length same ∙ wide _
          | inr (mid, left, right, lo, hi, el, er, same) ↦ ap length same ∙ wide _
        ]

    -- Strings with different first bytes.
    tag_ne : (xs ys : List ℕ) → 1 ∷ xs ≡ 0 ∷ ys → ⊥
    tag_ne xs ys e = cc e

    -- If a step over `current` gives the root of a range, `current` is the root of a part of it.
    step_down :
        (start end : ℕ) (current : Hash) (step : HistoryProofStep)
        → length current ≡ 32
        → length step.sibling ≡ 32
        → start < end
        → end ≤ length history
        → ((x y : List ℕ)
            → (x
                ≡ 1
                  ∷ (if step.sibling_is_right
                      then current ++ step.sibling
                      else step.sibling ++ current))
            → TreeInput host history y
            → host.sha256 x ≡ host.sha256 y
            → x ≡ y)
        → mth_range host leaves start end ≡ some (step_hash host current step)
        → (a : ℕ) × (b : ℕ) × (a < b) × (b ≤ end) × (mth_range host leaves a b ≡ some current)
    unfolding leaf_hash node_hash leaf_bytes
    step_down start end current step n32 s32 some_leaf inside free e =
        let hashed = step_hash-eq host current step in
        elim (range_root-inv start end (step_hash host current step) some_leaf inside e) [
          | inl (x, ex, same) ↦ absurd (
              tag_ne _ _
                (free _ (leaf_bytes host x) refl (leaf_input start x ex refl) (sym hashed ∙ same)))
          | inr (mid, left, right, lo, hi, el, er, same) ↦
              let equal =
                free _ (1 ∷ (left ++ right)) refl
                  (node_input start mid end left right lo hi inside el er refl)
                  (sym hashed ∙ same) in
              let l32 = length-range_root start mid left lo (omega arith) el in
              elim (sides step.sibling_is_right current step.sibling left right n32 s32 l32
                (cc equal)) [
                  | inl here ↦ (start, mid, lo, omega arith, el ∙ ap some here)
                  | inr here ↦ (mid, end, hi, omega arith, er ∙ ap some here)
                ]
        ]

    -- If a replay ends in the root of a range, it started in the root of a part of it.
    replay_steps-start :
        (proof : List HistoryProofStep) (start end : ℕ) (current : Hash)
        → length current ≡ 32
        → AreHashes proof
        → start < end
        → end ≤ length history
        → ((x y : List ℕ)
            → ReplayInput host current proof x
            → TreeInput host history y
            → host.sha256 x ≡ host.sha256 y
            → x ≡ y)
        → mth_range host leaves start end ≡ some (replay_steps host current proof)
        → (a : ℕ) × (b : ℕ) × (a < b) × (b ≤ end) × (mth_range host leaves a b ≡ some current)
    unfolding replay_steps
    replay_steps-start [] start end current n32 s32 some_leaf inside free e =
        (start, end, some_leaf, omega arith, e)
    replay_steps-start (step ∷ proof) start end current n32 s32 some_leaf inside free e =
        let next32 = ap length (step_hash-eq host current step) ∙ wide _ in
        let (a, b, ab, within, root) =
          replay_steps-start proof start end (step_hash host current step) next32 s32.1 some_leaf
            inside (λ x y rx ty same. free x y (inr rx) ty same) e in
        let (a', b', less, within', root') =
          step_down a b current step n32 s32.0 ab (omega arith)
            (λ x y rx ty same. free x y (inl rx) ty same) root in
        (a', b', less, omega arith, root')

    pub entry_committed :
        (entry : ProgressEntry) (proof : List HistoryProofStep)
        → AreHashes proof
        → NoCollision host history entry proof
        → 0 < length history
        → mth_range host leaves 0 (length history) ≡ some (compute_root_from_proof host entry proof)
        → (i : ℕ) × (e : ProgressEntry) × (get_elem? history i ≡ some e)
          × (leaf_bytes host entry ≡ leaf_bytes host e)
    unfolding compute_root_from_proof leaf_hash node_hash leaf_bytes
    entry_committed entry proof s32 free some_leaf e =
        let (a, b, less, within, root) =
          replay_steps-start proof 0 (length history) (leaf_hash host entry) (wide _) s32 some_leaf
            (omega arith) (λ x y rx ty same. free x y (inr rx) ty same) e in
        elim (range_root-inv a b (leaf_hash host entry) less within root) [
          | inl (x, ex, same) ↦ (a, x, ex, free _ _ (inl refl) (leaf_input a x ex refl) same)
          | inr (mid, left, right, lo, hi, el, er, same) ↦ absurd (
              tag_ne _ _ (
                sym (
                  free _ (1 ∷ (left ++ right)) (inl refl)
                    (node_input a mid b left right lo hi within el er refl) same)))
        ]
