-- ===== src/Registration/Guards.antt =====
-- The guards of contracts/registration/src/lib.rs in a call that returned.
use scout_off_contracts.Prelude.{◌≡◌, true, some, inl, inr, Option-cases, Bool-cases, arith}
use scout_off_contracts.Shared.Types.{Address}
use scout_off_contracts.Shared.Admin.{require_admin}
use scout_off_contracts.Contract.{ok, ◌>>=◌}
use scout_off_contracts.Registration.Types.{Env, State, Call}
use scout_off_contracts.Registration.Storage.{admin_auth}

module _ {A : Type 0} (env : Env) (f : Address → Call A) {s : State} {r : A × State} where
  pub admin_auth-inv :
      (admin_auth env >>= f) s ≡ ok r
      → (admin : Address) × (s.admin ≡ some admin)
        × (env.authorized admin ≡ true)
        × (f admin s ≡ ok r)
  unfolding require_admin
  admin_auth-inv e = elim (Option-cases s.admin) [
    | inl missing ↦ absurd (ground (arith, missing))
    | inr (admin, appointed) ↦ elim (Bool-cases (env.authorized admin)) [
      | inl given ↦ (admin, appointed, given, ground (arith, appointed, given))
      | inr missing ↦ absurd (ground (arith, appointed, missing))
    ]
  ]
