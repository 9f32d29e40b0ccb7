-- ===== src/Prelude/Maps.antt =====
-- Storage keys with arguments, as functions of them: a write at one key, and the removal of one key.
use Prim.Native.Nat.{ℕ}
use mathlib.Core.Path.{◌≡◌}
use mathlib.Core.Logic.{◌⊎◌, inl, inr}
use mathlib.Core.Bool.{false}
use native.Mathlib.Omega.{arith}
use mathlib.Core.Option.{Option, none, some}
use package.scout_off_contracts.Prelude.Tests.{◌==◌, if◌then◌else◌, Bool-cases, ==_iff}

abbrev pub update : {V : Type 0} → (ℕ → Option V) → ℕ → V → ℕ → Option V
update f k v j = if k == j then some v else f j

abbrev pub remove : {V : Type 0} → (ℕ → Option V) → ℕ → ℕ → Option V
remove f k j = if k == j then none else f j

abbrev pub update₂ : {V : Type 0} → (ℕ → ℕ → Option V) → ℕ → ℕ → V → ℕ → ℕ → Option V
update₂ f k i v j l = if k == j then (if i == l then some v else f j l) else f j l

abbrev pub remove₂ : {V : Type 0} → (ℕ → ℕ → Option V) → ℕ → ℕ → ℕ → ℕ → Option V
remove₂ f k i j l = if k == j then (if i == l then none else f j l) else f j l

module _ {V : Type 0} (f : ℕ → Option V) (k j : ℕ) where
  -- What is found after a write was written or was there before.
  pub update-inv :
      (v : V) {x : V}
      → update f k v j ≡ some x
      → ((k ≡ j) × (v ≡ x)) ⊎ (((k == j) ≡ false) × (f j ≡ some x))
  update-inv v e = elim (Bool-cases (k == j)) [
    | inl same ↦ inl ((==_iff k j).0 same, ground (arith, same))
    | inr apart ↦ inr (apart, ground (arith, apart))
  ]

  pub remove-inv : {x : V} → remove f k j ≡ some x → ((k == j) ≡ false) × (f j ≡ some x)
  remove-inv e = elim (Bool-cases (k == j)) [
    | inl same ↦ ground (arith, same)
    | inr apart ↦ (apart, ground (arith, apart))
  ]
