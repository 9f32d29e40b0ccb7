-- ===== src/Shared/Admin.antt =====
-- The admin authorisation of contracts/shared-types/src/lib.rs.
use scout_off_contracts.Prelude.{ℕ, Bool, Option, none, some, if◌then◌else◌}
use scout_off_contracts.Contract.{Outcome, ok, err, trap}

-- The host's `Address::require_auth`, which traps if the address has not authorised the call.
abbrev pub require_auth : {E : Type 0} → (ℕ → Bool) → ℕ → Outcome E ℕ
require_auth authorized a = if authorized a then ok a else trap

-- `stored` is what the admin key holds, `not_initialized` the contract's own error.
unfoldable pub require_admin : {E : Type 0} → Option ℕ → (ℕ → Bool) → E → Outcome E ℕ
require_admin none authorized not_initialized = err not_initialized
require_admin (some admin) authorized not_initialized = require_auth authorized admin
