-- ===== src/Progress/Merkle/Frontier.antt =====
-- The frontier of contracts/progress/src/lib.rs: `frontier_append` and `frontier_root`.
use native.Mathlib.Decide.{ℕ_discrete}
use native.Mathlib.Numerals.{add-one}
use scout_off_contracts.Prelude.{
  ℕ, zero, suc, ◌+◌, ◌≤◌, ◌<◌, ◌≡◌, refl, ◌∙◌, ap, subst, none, some, List, [], ◌∷◌, ◌++◌, arith,
  length, get_elem?, get_elem?-lt,
}
use scout_off_contracts.Prelude.Words.{u32_max}
use scout_off_contracts.Progress.Types.{Host, Hash, FrontierPeak}
use scout_off_contracts.Progress.Hashing.{node_hash}
use scout_off_contracts.Progress.Merkle.{
  mth_range, find_level, remove_at, append_loop, frontier_append, fold_peaks, frontier_root,
}
use scout_off_contracts.Progress.Merkle.Pow2.{pow2, pow2_pos, pow2_mono, pow2_next}
use scout_off_contracts.Progress.Merkle.Range.{mth_range-split, mth_range-one, mth_range-append}

-- The levels ascend strictly from `lo` on.
abbrev pub Ascends : ℕ → List FrontierPeak → Type 0
Ascends lo [] = Unit
Ascends lo (p ∷ ps) = (lo ≤ p.level) × Ascends (suc p.level) ps

-- The peaks are the roots of perfect subtrees that cover the first `n` leaves, the lowest last.
abbrev pub Covers : Host → List Hash → List FrontierPeak → ℕ → Type 0
Covers host leaves [] n = n ≡ 0
Covers host leaves (p ∷ ps) n =
    (before : ℕ) × (n ≡ before + pow2 p.level)
    × (mth_range host leaves before n ≡ some p.hash)
    × Covers host leaves ps before

-- A stored frontier of the first `n` leaves.
pub record IsFrontier (host : Host) (leaves : List Hash) (ps : List FrontierPeak) (n : ℕ)
    : Type 0 where
  pub ascends : Ascends 0 ps
  pub covers : Covers host leaves ps n

Ascends-get_elem? :
    (ps : List FrontierPeak) (lo j : ℕ) {p : FrontierPeak}
    → Ascends lo ps
    → get_elem? ps j ≡ some p
    → lo ≤ p.level
Ascends-get_elem? [] lo j h e = ground arith
Ascends-get_elem? (q ∷ ps) lo zero h e = ground arith
Ascends-get_elem? (q ∷ ps) lo (suc j) h e =
    omega (arith, Ascends-get_elem? ps (suc q.level) j h.1 e)

Ascends-weaken : (ps : List FrontierPeak) (lo hi : ℕ) → lo ≤ hi → Ascends hi ps → Ascends lo ps
Ascends-weaken [] lo hi h a = tt
Ascends-weaken (p ∷ ps) lo hi h a = (omega arith, a.1)

-- Peaks that are all above a level hold no match for it.
find_level-none :
    (ps : List FrontierPeak) (lo c j : ℕ)
    → Ascends lo ps
    → c < lo
    → j ≤ length ps
    → find_level ps c j ≡ none
unfolding find_level
find_level-none ps lo c zero a h b = refl
find_level-none ps lo c (suc j) a h b =
    let (p, e) = get_elem?-lt ps j b in
    let above = Ascends-get_elem? ps lo j a e in
    ground (arith, find_level-none ps lo c j a h (omega arith))

-- A first peak at the level is the one that is found.
find_level-head :
    (p : FrontierPeak) (ps : List FrontierPeak) (c j : ℕ)
    → p.level ≡ c
    → Ascends (suc c) ps
    → j ≤ length ps
    → find_level (p ∷ ps) c (suc j) ≡ some 0
unfolding find_level
find_level-head p ps c zero e a b = ground arith
find_level-head p ps c (suc j) e a b =
    let (q, eq) = get_elem?-lt ps j b in
    let above = Ascends-get_elem? ps (suc c) j a eq in
    ground (arith, find_level-head p ps c j e a (omega arith))

append_loop-stop :
    (host : Host) (fuel c : ℕ) (ps : List FrontierPeak) (h : Hash)
    → Ascends (suc c) ps
    → append_loop host (suc fuel) ps c h ≡ some (record { level = c; hash = h } ∷ ps)
unfolding append_loop
append_loop-stop host fuel c ps h a =
    ground (arith, find_level-none ps (suc c) c (length ps) a (omega arith) (omega arith))

append_loop-merge :
    (host : Host) (fuel c : ℕ) (p : FrontierPeak) (ps : List FrontierPeak) (h : Hash)
    → p.level ≡ c
    → Ascends (suc c) ps
    → append_loop host (suc fuel) (p ∷ ps) c h
      ≡ append_loop host fuel ps (c + 1) (node_hash host p.hash h)
unfolding append_loop remove_at
append_loop-merge host fuel c p ps h e a =
    ground (arith, find_level-head p ps c (length ps) e a (omega arith))

module _ (host : Host) (leaves : List Hash) where
  -- The carry is the root of the perfect subtree just right of the peaks.
  append_loop-Covers :
      (fuel c : ℕ) (ps : List FrontierPeak) (h : Hash) (mid end : ℕ)
      → length ps < fuel
      → Ascends c ps
      → Covers host leaves ps mid
      → end ≡ mid + pow2 c
      → mth_range host leaves mid end ≡ some h
      → end ≤ u32_max
      → (ps' : List FrontierPeak) × (append_loop host fuel ps c h ≡ some ps')
        × Ascends c ps'
        × Covers host leaves ps' end
  append_loop-Covers zero c ps h mid end f a cov e m b = elim f [ ]
  append_loop-Covers (suc fuel) c [] h mid end f a cov e m b = (
    record { level = c; hash = h } ∷ [],
    append_loop-stop host fuel c [] h tt,
    (omega arith, tt),
    (mid, e, m, cov),
  )
  append_loop-Covers (suc fuel) c (p ∷ ps) h mid end f a (before, eb, mb, cov) e m b =
      elim (ℕ_discrete p.level c) [
        | no ne ↦
            let above : Ascends (suc c) (p ∷ ps) = (omega arith, a.1) in
            (
              record { level = c; hash = h } ∷ p ∷ ps,
              append_loop-stop host fuel c (p ∷ ps) h above,
              (omega arith, above),
              (mid, e, m, (before, eb, mb, cov)),
            )
        | yes same ↦
            let level : pow2 p.level ≡ pow2 c = ap pow2 same in
            let above : Ascends (suc c) ps = subst (λ l. Ascends (suc l) ps) same a.1 in
            let joined =
              mth_range-split host leaves before mid end c (omega arith) (omega (arith, pow2_pos c))
                (omega arith) (omega arith) in
            let (ps', eq, up, all) =
              append_loop-Covers fuel (c + 1) ps (node_hash host p.hash h) before end (omega arith)
                (rw add-one above) cov (rw pow2_next (omega arith)) (rw (joined, mb, m)) b in
            (
              ps',
              append_loop-merge host fuel c p ps h same above ∙ eq,
              Ascends-weaken ps' c (c + 1) (omega arith) up,
              all,
            )
      ]

  -- Appending the next leaf to a frontier of `n` leaves, `n` below the largest `u32`, returns a
  -- frontier of `n + 1` leaves.
  pub frontier_append-IsFrontier :
      (ps : List FrontierPeak) (n : ℕ) (leaf : Hash)
      → IsFrontier host leaves ps n
      → get_elem? leaves n ≡ some leaf
      → n < u32_max
      → (ps' : List FrontierPeak) × (frontier_append host ps leaf ≡ some ps')
        × IsFrontier host leaves ps' (n + 1)
  unfolding frontier_append pow2
  frontier_append-IsFrontier ps n leaf f e b =
      let (ps', eq, up, all) =
        append_loop-Covers (suc (length ps)) 0 ps leaf n (n + 1) (omega arith) f.ascends f.covers
          (omega arith) (mth_range-one host leaves n (n + 1) refl ∙ e) (omega arith) in
      (ps', eq, record { ascends = up; covers = all })

  -- The accumulator is the root of the leaves right of the peaks that are left.
  fold_peaks-Covers :
      (ps : List FrontierPeak) (lo : ℕ) (acc : Hash) (mid end : ℕ)
      → Ascends lo ps
      → Covers host leaves ps mid
      → mid < end
      → end ≤ mid + pow2 lo
      → mth_range host leaves mid end ≡ some acc
      → end ≤ u32_max
      → mth_range host leaves 0 end ≡ some (fold_peaks host acc ps)
  unfolding fold_peaks
  fold_peaks-Covers [] lo acc mid end a cov h small m b = rw cov at m
  fold_peaks-Covers (p ∷ ps) lo acc mid end a (before, eb, mb, cov) h small m b =
      let wide = pow2_mono lo p.level a.0 in
      let joined =
        mth_range-split host leaves before mid end p.level eb h (omega arith) (omega arith) in
      fold_peaks-Covers ps (suc p.level) (node_hash host p.hash acc) before end a.1 cov
        (omega arith) (rw (← add-one) (rw pow2_next (omega arith))) (rw (joined, mb, m)) b

  -- The root folded from the peaks of a frontier of `n` leaves, `0 < n`, within `u32`, is the RFC 6962
  -- root of these leaves.
  pub frontier_root-eq-mth_range :
      (ps : List FrontierPeak) (n : ℕ)
      → IsFrontier host leaves ps n
      → 0 < n
      → n ≤ u32_max
      → mth_range host leaves 0 n ≡ some (frontier_root host ps)
  unfolding frontier_root
  frontier_root-eq-mth_range [] n f h b = absurd (omega (arith, f.covers))
  frontier_root-eq-mth_range (p ∷ ps) n f h b =
      let (before, e, m, cov) = f.covers in
      fold_peaks-Covers ps (suc p.level) p.hash before n f.ascends.1 cov
        (omega (arith, pow2_pos p.level)) (rw (← add-one) (rw pow2_next (omega arith))) m b

module _ (host : Host) where
  Covers-append :
      (leaves ys : List Hash) (ps : List FrontierPeak) (n : ℕ)
      → n ≤ length leaves
      → Covers host leaves ps n
      → Covers host (leaves ++ ys) ps n
  Covers-append leaves ys [] n h e = e
  Covers-append leaves ys (p ∷ ps) n h (before, e, m, cov) =
      let pos = pow2_pos p.level in
      (
        before,
        e,
        mth_range-append host n leaves ys before n (omega arith) (omega arith) h ∙ m,
        Covers-append leaves ys ps before (omega arith) cov,
      )

  -- Leaves that are appended later leave a frontier a frontier of the leaves that it covers.
  pub IsFrontier-append :
      (leaves ys : List Hash) (ps : List FrontierPeak) (n : ℕ)
      → n ≤ length leaves
      → IsFrontier host leaves ps n
      → IsFrontier host (leaves ++ ys) ps n
  IsFrontier-append leaves ys ps n h f = record {
    ascends = f.ascends;
    covers = Covers-append leaves ys ps n h f.covers;
  }
