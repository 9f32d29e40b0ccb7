-- ===== src/Shared/SafeMath.antt =====
-- `safe_math` of contracts/shared-types/src/lib.rs. An `ArithmeticError` is `none`.
use scout_off_contracts.Prelude.{ℕ, Option}
use scout_off_contracts.Prelude.Words.{u32_max, u64_max, checked_add, checked_sub}

unfoldable pub safe_add_u32 : ℕ → ℕ → Option ℕ
safe_add_u32 a b = checked_add u32_max a b

unfoldable pub safe_sub_u32 : ℕ → ℕ → Option ℕ
safe_sub_u32 a b = checked_sub a b

unfoldable pub safe_add_u64 : ℕ → ℕ → Option ℕ
safe_add_u64 a b = checked_add u64_max a b

unfoldable pub safe_sub_u64 : ℕ → ℕ → Option ℕ
safe_sub_u64 a b = checked_sub a b
