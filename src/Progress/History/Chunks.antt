-- ===== src/Progress/History/Chunks.antt =====
-- The pages of a history: `HISTORY_PAGE_SIZE` entries each, in order.
use native.Mathlib.Decide.{dec_lt}
use scout_off_contracts.Prelude.{
  ℕ, zero, suc, ◌+◌, ◌-◌, ◌*◌, ◌/◌, ◌≤◌, ◌<◌, ◌≡◌, ◌≢◌, refl, sym, ◌∙◌, ap, Option, some, List, [],
  ◌∷◌, ◌++◌, arith, min, length, get_elem?, get_elem?-lt, take, drop, drop_all, take_all,
  drop-eq-cons, length-drop, take-append-drop,
}
use scout_off_contracts.Progress.Storage.{collect}

module _ {A : Type 0} where
  collect-some :
      (f : ℕ → Option A) (start n : ℕ) {x : A}
      → f start ≡ some x
      → collect f start (suc n) ≡ x ∷ collect f (start + 1) n
  unfolding collect
  collect-some f start n e = ground arith

  collect-none : (f : ℕ → Option A) (start : ℕ) → collect f start 0 ≡ []
  unfolding collect
  collect-none f start = refl

  -- A loop over indices that are all there reads a stretch of the list.
  pub collect-eq-take :
      (f : ℕ → Option A) (xs : List A) (start n i : ℕ)
      → ((j : ℕ) → j < length xs → f (suc j) ≡ get_elem? xs j)
      → start ≡ suc i
      → i + n ≤ length xs
      → collect f start n ≡ take n (drop i xs)
  collect-eq-take f xs start zero i h e b = collect-none f start
  collect-eq-take f xs start (suc n) i h e b =
      let (x, ex) = get_elem?-lt xs i (omega arith) in
      let here : f start ≡ some x = ap f e ∙ h i (omega arith) ∙ ex in
      let rest = collect-eq-take f xs (start + 1) n (suc i) h (omega arith) (omega arith) in
      collect-some f start n here ∙ (rw (rest, drop-eq-cons xs i ex))

  abbrev pub chunk : List A → ℕ → List A
  chunk xs p = take 8 (drop (8 * p) xs)

  take-snoc : (n : ℕ) (xs : List A) (x : A) → n ≤ length xs → take n (xs ++ x ∷ []) ≡ take n xs
  take-snoc zero xs x h = refl
  take-snoc (suc n) [] x h = elim h [ ]
  take-snoc (suc n) (y ∷ xs) x h = ap (λ t. y ∷ t) (take-snoc n xs x (omega arith))

  drop-snoc :
      (n : ℕ) (xs : List A) (x : A) → n ≤ length xs → drop n (xs ++ x ∷ []) ≡ drop n xs ++ x ∷ []
  drop-snoc zero xs x h = refl
  drop-snoc (suc n) [] x h = elim h [ ]
  drop-snoc (suc n) (y ∷ xs) x h = drop-snoc n xs x (omega arith)

  pub take-snoc_all : (xs : List A) (x : A) → take (length xs) (xs ++ x ∷ []) ≡ xs
  take-snoc_all [] x = refl
  take-snoc_all (y ∷ xs) x = ap (λ t. y ∷ t) (take-snoc_all xs x)

  length-snoc : (xs : List A) (x : A) → length (xs ++ x ∷ []) ≡ suc (length xs)
  length-snoc [] x = refl
  length-snoc (y ∷ xs) x = ap suc (length-snoc xs x)

  -- The page of the next entry gains it at its end.
  pub chunk-snoc_self :
      (xs : List A) (x : A) (p : ℕ)
      → p ≡ length xs / 8
      → chunk (xs ++ x ∷ []) p ≡ take (length xs - 8 * p) (drop (8 * p) xs) ++ x ∷ []
  chunk-snoc_self xs x p e =
      let few : length (drop (8 * p) xs) ≡ length xs - 8 * p = length-drop (8 * p) xs in
      let all =
        take_all 8 (drop (8 * p) xs ++ x ∷ [])
          (rw (length-snoc (drop (8 * p) xs) x) (omega arith)) in
      rw (
        drop-snoc (8 * p) xs x (omega arith),
        all,
        take_all (length xs - 8 * p) (drop (8 * p) xs) (omega arith),
      )

  -- The other pages are as they were.
  pub chunk-snoc_ne :
      (xs : List A) (x : A) (p : ℕ) → p ≢ length xs / 8 → chunk (xs ++ x ∷ []) p ≡ chunk xs p
  chunk-snoc_ne xs x p ne = elim (dec_lt (length xs) (8 * p + 8)) [
    | no full ↦
        let many : length (drop (8 * p) xs) ≡ length xs - 8 * p = length-drop (8 * p) xs in
        rw (drop-snoc (8 * p) xs x (omega arith), take-snoc 8 (drop (8 * p) xs) x (omega arith))
    | yes h ↦
        let over : suc (length xs) ≤ 8 * p = omega arith in
        rw (
          drop_all (8 * p) xs (omega arith),
          drop_all (8 * p) (xs ++ x ∷ []) (rw (length-snoc xs x) over),
        )
  ]

  pub drop-drop : (m n k : ℕ) (xs : List A) → k ≡ m + n → drop k xs ≡ drop n (drop m xs)
  drop-drop zero n k xs e = let same : k ≡ n = omega arith in rw same
  drop-drop (suc m) n zero xs e = absurd (omega arith)
  drop-drop (suc m) n (suc k) [] e = sym (drop_all n [] (omega arith))
  drop-drop (suc m) n (suc k) (x ∷ xs) e = drop-drop m n k xs (omega arith)

  -- The pages from `p` on, one after the other, are the rest of the list.
  pub chunk-append-drop :
      (xs : List A) (p : ℕ) → chunk xs p ++ drop (8 * (p + 1)) xs ≡ drop (8 * p) xs
  chunk-append-drop xs p =
      rw (drop-drop (8 * p) 8 (8 * (p + 1)) xs (omega arith)) (take-append-drop 8 (drop (8 * p) xs))

  -- Asking for more than there is gives all.
  pub take-min : (n m : ℕ) (xs : List A) → m ≡ min n (length xs) → take m xs ≡ take n xs
  take-min n m xs e = elim (dec_lt (length xs) n) [
    | yes few ↦ take_all m xs (omega arith) ∙ sym (take_all n xs (omega arith))
    | no enough ↦ let same : m ≡ n = omega arith in rw same
  ]
