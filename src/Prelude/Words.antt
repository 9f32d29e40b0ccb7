-- ===== src/Prelude/Words.antt =====
-- Machine-width naturals: the bounds, and the saturating and checked operations of Rust.
use Prim.Native.Nat.{ℕ, ◌+◌, ◌-◌, ◌*◌, ◌≤◌}
use mathlib.Core.Path.{◌≡◌}
use native.Mathlib.Omega.{arith}
use mathlib.Core.Option.{Option, none, some}
use package.scout_off_contracts.Prelude.Tests.{ltb, if◌then◌else◌}

abbrev pub u32_max : ℕ
u32_max = 4294967295

abbrev pub u64_max : ℕ
u64_max = 18446744073709551615

-- `u32::saturating_add`, `saturating_sub`, `saturating_mul`.
abbrev pub sat_add32 : ℕ → ℕ → ℕ
sat_add32 a b = if ltb u32_max (a + b) then u32_max else a + b

abbrev pub sat_mul32 : ℕ → ℕ → ℕ
sat_mul32 a b = if ltb u32_max (a * b) then u32_max else a * b

abbrev pub sat_add64 : ℕ → ℕ → ℕ
sat_add64 a b = if ltb u64_max (a + b) then u64_max else a + b

-- `checked_add` at a width whose largest value is `bound`, and `checked_sub`.
abbrev pub checked_add : ℕ → ℕ → ℕ → Option ℕ
checked_add bound a b = if ltb bound (a + b) then none else some (a + b)

abbrev pub checked_sub : ℕ → ℕ → Option ℕ
checked_sub a b = if ltb a b then none else some (a - b)

abbrev pub checked_mul : ℕ → ℕ → ℕ → Option ℕ
checked_mul bound a b = if ltb bound (a * b) then none else some (a * b)

pub checked_add-inv :
    (bound a b : ℕ) {n : ℕ} → checked_add bound a b ≡ some n → (n ≡ a + b) × (n ≤ bound)
checked_add-inv bound a b e = (ground arith, ground arith)
