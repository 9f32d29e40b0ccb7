-- ===== src/Registration/Indexes.antt =====
-- The player index and the level indexes of contracts/registration/src/lib.rs, by how often an id
-- occurs in them.
use scout_off_contracts.Prelude.{
  ℕ, ◌+◌, ◌-◌, ◌<◌, ◌≡◌, refl, true, ◌&&◌, List, [], ◌∷◌, ◌++◌, ltb, ◌==◌, if◌then◌else◌, length,
  arith, bytes_eq, bytes_eq_sound, Bool-cases, and-inv, inl, inr,
}
use scout_off_contracts.Shared.Level.{Level, level_eq, level_eq_iff}
use scout_off_contracts.Shared.Types.{Text}
use scout_off_contracts.Registration.Types.{State}
use scout_off_contracts.Registration.Storage.{
  has_id, remove_id, region_bucket, level_bucket, set_region_bucket, set_level_bucket,
  composite_index_add, composite_index_remove, level_index_add, level_index_remove,
}

-- How often an id occurs.
abbrev pub occurs : ℕ → List ℕ → ℕ
occurs id [] = 0
occurs id (x ∷ xs) = (if x == id then 1 else 0) + occurs id xs

pub occurs-snoc :
    (id : ℕ) (xs : List ℕ) (y : ℕ)
    → occurs id (xs ++ y ∷ []) ≡ occurs id xs + (if y == id then 1 else 0)
occurs-snoc id [] y = omega arith
occurs-snoc id (x ∷ xs) y = omega (arith, occurs-snoc id xs y)

pub has_id-eq-ltb : (id : ℕ) (xs : List ℕ) → has_id id xs ≡ ltb 0 (occurs id xs)
unfolding has_id
has_id-eq-ltb id [] = refl
has_id-eq-ltb id (x ∷ xs) = ground (arith, has_id-eq-ltb id xs)

-- One occurrence of the removed id goes.
pub occurs-remove_id :
    (id y : ℕ) (xs : List ℕ)
    → occurs id (remove_id y xs) ≡ occurs id xs - (if y == id then 1 else 0)
unfolding remove_id
occurs-remove_id id y [] = ground arith
occurs-remove_id id y (x ∷ xs) = ground (arith, occurs-remove_id id y xs)

pub length-remove_id :
    (y : ℕ) (xs : List ℕ) → 0 < occurs y xs → length (remove_id y xs) + 1 ≡ length xs
unfolding remove_id
length-remove_id y [] h = elim h [ ]
length-remove_id y (x ∷ xs) h = elim (Bool-cases (x == y)) [
  | inl e ↦ ground (arith, e)
  | inr e ↦ ground (arith, e, length-remove_id y xs)
]

-- Equal keys hold the same bucket.
same_region_bucket :
    (s : State) (l l' : Level) (r r' : Text)
    → (level_eq l l' && bytes_eq r r') ≡ true
    → region_bucket s l r ≡ region_bucket s l' r'
same_region_bucket s l l' r r' e =
    let both = and-inv (level_eq l l') (bytes_eq r r') e in
    let level : l ≡ l' = (level_eq_iff l l').0 both.0 in
    let region : r ≡ r' = bytes_eq_sound r r' both.1 in cc (level, region)

same_level_bucket :
    (s : State) (l l' : Level) → level_eq l l' ≡ true → level_bucket s l ≡ level_bucket s l'
same_level_bucket s l l' e = let level : l ≡ l' = (level_eq_iff l l').0 e in cc level

module _ (s : State) (l l' : Level) (id j : ℕ) where
  pub occurs-composite_index_add :
      (r r' : Text)
      → occurs j (region_bucket (composite_index_add l r id s) l' r')
        ≡ occurs j (region_bucket s l' r')
          + (if (level_eq l l' && bytes_eq r r') && id == j then 1 else 0)
  unfolding composite_index_add set_region_bucket region_bucket
  occurs-composite_index_add r r' = elim (Bool-cases (level_eq l l' && bytes_eq r r')) [
    | inl e ↦
        ground (arith, e, same_region_bucket s l l' r r' e, occurs-snoc j (region_bucket s l r) id)
    | inr e ↦ ground (arith, e)
  ]

  pub occurs-level_index_add :
      occurs j (level_bucket (level_index_add l id s) l')
      ≡ occurs j (level_bucket s l') + (if level_eq l l' && id == j then 1 else 0)
  unfolding level_index_add set_level_bucket level_bucket
  occurs-level_index_add = elim (Bool-cases (level_eq l l')) [
    | inl e ↦ ground (arith, e, same_level_bucket s l l' e, occurs-snoc j (level_bucket s l) id)
    | inr e ↦ ground (arith, e)
  ]

  pub occurs-composite_index_remove :
      (r r' : Text)
      → occurs j (region_bucket (composite_index_remove l r id s) l' r')
        ≡ occurs j (region_bucket s l' r')
          - (if (level_eq l l' && bytes_eq r r') && id == j then 1 else 0)
  unfolding composite_index_remove region_bucket
  occurs-composite_index_remove r r' = elim (Bool-cases (level_eq l l' && bytes_eq r r')) [
    | inl e ↦ ground (
      arith,
      e,
      same_region_bucket s l l' r r' e,
      occurs-remove_id j id (region_bucket s l r),
      has_id-eq-ltb id (region_bucket s l r),
    )
    | inr e ↦ ground (arith, e)
  ]

  pub occurs-level_index_remove :
      occurs j (level_bucket (level_index_remove l id s) l')
      ≡ occurs j (level_bucket s l') - (if level_eq l l' && id == j then 1 else 0)
  unfolding level_index_remove level_bucket
  occurs-level_index_remove = elim (Bool-cases (level_eq l l')) [
    | inl e ↦ ground (
      arith,
      e,
      same_level_bucket s l l' e,
      occurs-remove_id j id (level_bucket s l),
      has_id-eq-ltb id (level_bucket s l),
    )
    | inr e ↦ ground (arith, e)
  ]
