-- ===== src/Progress/Tests/Merkle.antt =====
-- The tree, its frontier and its paths over three leaves.
use scout_off_contracts.Prelude.{◌≡◌, refl, some, List, [], ◌∷◌, arith}
use scout_off_contracts.Progress.Types.{Hash, FrontierPeak, HistoryProofStep}
use scout_off_contracts.Progress.Hashing.{node_hash}
use scout_off_contracts.Progress.Hashing.Encoding.{Fits, leaf_bytes_injective}
use scout_off_contracts.Progress.Merkle.{
  largest_pow2_lt, mth_range, frontier_append, frontier_root, path_range,
}
use scout_off_contracts.Progress.Merkle.Pow2.{pow2, largest_pow2_lt_lem}
use scout_off_contracts.Progress.Merkle.Range.{mth_range-one, mth_range_total}
use scout_off_contracts.Progress.Merkle.Frontier.{
  IsFrontier, frontier_append-IsFrontier, frontier_root-eq-mth_range,
}
use scout_off_contracts.Progress.Merkle.Paths.{IsPath, path_range-IsPath}
use scout_off_contracts.Progress.Tests.{test_host, first_entry}

abbrev three : List Hash
three = (1 ∷ []) ∷ (2 ∷ []) ∷ (3 ∷ []) ∷ []

-- Five is four and one.
largest_pow2_lt_lem_example : largest_pow2_lt 5 ≡ 4
unfolding pow2
largest_pow2_lt_lem_example = largest_pow2_lt_lem 2 1 (omega arith) (omega arith) (omega arith)

mth_range_total_example : (root : Hash) × (mth_range test_host three 0 3 ≡ some root)
mth_range_total_example =
    mth_range_total test_host 3 three 0 3 (omega arith) (omega arith) (omega arith)

-- The frontier of the first leaf.
abbrev one_peak : List FrontierPeak
one_peak = record { level = 0; hash = 1 ∷ [] } ∷ []

one_peak-IsFrontier : IsFrontier test_host three one_peak 1
unfolding pow2
one_peak-IsFrontier = record {
  ascends = (omega arith, tt);
  covers = (0, refl, mth_range-one test_host three 0 1 refl, refl);
}

frontier_append-IsFrontier_example :
    (ps : List FrontierPeak) × (frontier_append test_host one_peak (2 ∷ []) ≡ some ps)
    × IsFrontier test_host three ps 2
frontier_append-IsFrontier_example =
    frontier_append-IsFrontier test_host three one_peak 1 (2 ∷ []) one_peak-IsFrontier refl
      (omega arith)

-- The peak over the first two leaves, and the third leaf.
abbrev two_peaks : List FrontierPeak
two_peaks =
    record { level = 0; hash = 3 ∷ [] }
    ∷ record { level = 1; hash = test_host.sha256 (1 ∷ 1 ∷ 2 ∷ []) }
    ∷ []

two_peaks-IsFrontier : IsFrontier test_host three two_peaks 3
unfolding pow2 mth_range largest_pow2_lt node_hash
two_peaks-IsFrontier = record {
  ascends = (omega arith, (omega arith, tt));
  covers = (2, refl, mth_range-one test_host three 2 3 refl, (0, refl, refl, refl));
}

frontier_root-eq-mth_range_example :
    mth_range test_host three 0 3 ≡ some (frontier_root test_host two_peaks)
frontier_root-eq-mth_range_example =
    frontier_root-eq-mth_range test_host three two_peaks 3 two_peaks-IsFrontier (omega arith)
      (omega arith)

path_range-IsPath_example :
    (proof : List HistoryProofStep) × (path_range test_host three 1 0 3 ≡ some proof)
    × IsPath test_host three 0 3 (2 ∷ []) 2 proof
unfolding pow2
path_range-IsPath_example =
    path_range-IsPath test_host three 1 0 3 2 (omega arith) (omega arith) (omega arith)
      (omega arith) (omega arith) refl

pub first_entry-Fits : Fits first_entry
first_entry-Fits = record {
  player_fits = omega arith;
  time_fits = omega arith;
  milestone_fits = omega arith;
  sequence_fits = omega arith;
}

leaf_bytes_injective_example : first_entry ≡ first_entry
leaf_bytes_injective_example =
    leaf_bytes_injective test_host (λ a b e. cc e) first_entry first_entry first_entry-Fits
      first_entry-Fits refl
