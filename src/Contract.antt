-- ===== src/Contract.antt =====
-- How a contract call ends, and the shape of a contract entry point: an action over its storage.
-- A call that returns `Err` or traps is rolled back by the host, so neither keeps a state.
use scout_off_contracts.Prelude.{◌≡◌, refl, sym, ◌∙◌, Bool, true, false, Option, none, some}

pub data Outcome {ℓ} (E A : Type ℓ) : Type ℓ where
  ok : A → Outcome E A
  err : E → Outcome E A
  trap : Outcome E A

abbrev pub Action : Type 0 → Type 0 → Type 0 → Type 0
Action S E A = S → Outcome E (A × S)

module _ {S E A : Type 0} where
  abbrev pub pure : A → Action S E A
  pure a s = ok (a, s)

  abbrev pub fail : E → Action S E A
  fail e s = err e

  abbrev pub gets : (S → A) → Action S E A
  gets f s = ok (f s, s)

  -- A pure result that may fail.
  abbrev pub lift : Outcome E A → Action S E A
  lift (ok a) s = ok (a, s)
  lift (err e) s = err e
  lift trap s = trap

module _ {S E A B : Type 0} where
  infixl 5 ◌>>=◌ ◌>>◌
  abbrev pub ◌>>=◌ : Action S E A → (A → Action S E B) → Action S E B
  ◌>>=◌ m f s = elim (m s) [ ok (a, s') ↦ f a s' | err e ↦ err e | trap ↦ trap ]

  abbrev pub ◌>>◌ : Action S E A → Action S E B → Action S E B
  m >> k = m >>= λ _. k

module _ {S E : Type 0} where
  abbrev pub get_state : Action S E S
  get_state s = ok (s, s)

  abbrev pub modify : (S → S) → Action S E (Unit {0})
  modify f s = ok (tt, f s)

  abbrev pub skip : Action S E (Unit {0})
  skip s = ok (tt, s)

  abbrev pub fail_if : Bool → E → Action S E (Unit {0})
  fail_if true e s = err e
  fail_if false e s = ok (tt, s)

module _ {S E A : Type 0} where
  -- `ok_or(e)?`
  abbrev pub or_fail : Option A → E → Action S E A
  or_fail none e s = err e
  or_fail (some a) e s = ok (a, s)

  -- `unwrap()`, and every other check that traps.
  abbrev pub or_trap : Option A → Action S E A
  or_trap none s = trap
  or_trap (some a) s = ok (a, s)

module _ {S E A B : Type 0} where
  -- A step that returned hands its value and its state to the rest.
  pub >>=-eq-ok :
      (m : Action S E A) (f : A → Action S E B) {s t : S} {a : A}
      → m s ≡ ok (a, t)
      → (m >>= f) s ≡ f a t
  >>=-eq-ok m f e = rw (e, ◌>>=◌)

  -- A step that failed or trapped ends the call.
  pub >>=-eq-err :
      (m : Action S E A) (f : A → Action S E B) {s : S} {x : E} → m s ≡ err x → (m >>= f) s ≡ err x
  >>=-eq-err m f e = rw (e, ◌>>=◌)

  pub >>=-eq-trap :
      (m : Action S E A) (f : A → Action S E B) {s : S} → m s ≡ trap → (m >>= f) s ≡ trap
  >>=-eq-trap m f e = rw (e, ◌>>=◌)

  -- A call that returned went through each of its steps.
  pub >>=-inv :
      (m : Action S E A) (f : A → Action S E B) {s : S} {r : B × S}
      → (m >>= f) s ≡ ok r
      → (a : A) × (t : S) × (m s ≡ ok (a, t)) × (f a t ≡ ok r)
  >>=-inv m f {s} {r} e = go (m s) refl
    where
      go :
          (o : Outcome E (A × S)) → m s ≡ o → (a : A) × (t : S) × (m s ≡ ok (a, t)) × (f a t ≡ ok r)
      go (ok (a, t)) h = (a, t, h, sym (>>=-eq-ok m f h) ∙ e)
      go (err x) h = cc (>>=-eq-err m f h, e)
      go trap h = cc (>>=-eq-trap m f h, e)

module _ {S E A B : Type 0} where
  -- Inversions of a call that returned, at its checks.
  pub or_fail-inv :
      (o : Option A) (x : E) (f : A → Action S E B) {s : S} {r : B × S}
      → (or_fail o x >>= f) s ≡ ok r
      → (a : A) × (o ≡ some a) × (f a s ≡ ok r)
  or_fail-inv none x f e = cc
  or_fail-inv (some a) x f e = (a, refl, e)

  pub or_trap-inv :
      (o : Option A) (f : A → Action S E B) {s : S} {r : B × S}
      → (or_trap o >>= f) s ≡ ok r
      → (a : A) × (o ≡ some a) × (f a s ≡ ok r)
  or_trap-inv none f e = cc
  or_trap-inv (some a) f e = (a, refl, e)

  pub lift-inv :
      (o : Outcome E A) (f : A → Action S E B) {s : S} {r : B × S}
      → (lift o >>= f) s ≡ ok r
      → (a : A) × (o ≡ ok a) × (f a s ≡ ok r)
  lift-inv (ok a) f e = (a, refl, e)
  lift-inv (err x) f e = cc
  lift-inv trap f e = cc

module _ {S E B : Type 0} where
  pub fail_if-inv :
      (b : Bool) (x : E) (f : Unit {0} → Action S E B) {s : S} {r : B × S}
      → (fail_if b x >>= f) s ≡ ok r
      → (b ≡ false) × (f tt s ≡ ok r)
  fail_if-inv true x f e = cc
  fail_if-inv false x f e = (refl, e)

module _ {S E A B : Type 0} where
  -- A check that passes goes on.
  pub or_fail-some :
      {o : Option A} {a : A} (e : o ≡ some a) (x : E) (f : A → Action S E B) (s : S)
      → (or_fail o x >>= f) s ≡ f a s
  or_fail-some e x f s = rw e

module _ {S E B : Type 0} where
  pub fail_if-false :
      {b : Bool} (e : b ≡ false) (x : E) (f : Unit {0} → Action S E B) (s : S)
      → (fail_if b x >>= f) s ≡ f tt s
  fail_if-false e x f s = rw e
