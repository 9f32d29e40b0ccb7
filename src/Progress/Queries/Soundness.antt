-- ===== src/Progress/Queries/Soundness.antt =====
-- What `verify_history_proof` of contracts/progress/src/lib.rs accepts.
use native.Mathlib.Decide.{dec_lt}
use scout_off_contracts.Prelude.{
  ℕ, ◌<◌, ◌≡◌, refl, sym, ◌∙◌, ap, subst, true, some, List, [], ◌∷◌, arith, ◌==◌, length, get_elem?,
  Option-cases, Bool-cases, inl, inr,
}
use scout_off_contracts.Contract.{ok}
use scout_off_contracts.Progress.Types.{Address, Hash, Env, State, ProgressEntry, HistoryProofStep}
use scout_off_contracts.Progress.Hashing.{leaf_hashes}
use scout_off_contracts.Progress.Hashing.Encoding.{Fits, leaf_bytes_injective}
use scout_off_contracts.Progress.Merkle.{compute_root_from_proof}
use scout_off_contracts.Progress.Merkle.Range.{mth_range-none}
use scout_off_contracts.Progress.History.Invariant.{HasHistory, RootHolds}
use scout_off_contracts.Progress.Queries.{hash_eq, verify_history_proof}
use scout_off_contracts.Progress.Queries.Descent.{NoCollision, AreHashes, entry_committed}

hash_eq_sound : (a b : Hash) → hash_eq a b ≡ true → a ≡ b
unfolding hash_eq
hash_eq_sound [] [] e = refl
hash_eq_sound [] (y ∷ ys) e = cc e
hash_eq_sound (x ∷ xs) [] e = cc e
hash_eq_sound (x ∷ xs) (y ∷ ys) e = elim (Bool-cases (x == y)) [
  | inl same ↦
      let head : x ≡ y = ground (arith, same) in
      let tail : xs ≡ ys = hash_eq_sound xs ys (rw same at e) in cc (head, tail)
  | inr apart ↦ cc (rw apart at e)
]

verify_history_proof-inv :
    (env : Env) (s : State) (player_id : ℕ) (entry : ProgressEntry) (proof : List HistoryProofStep)
    → verify_history_proof env player_id entry proof s ≡ ok (true, s)
    → (root : Hash) × (s.history_root player_id ≡ some root)
      × (compute_root_from_proof env.host entry proof ≡ root)
unfolding verify_history_proof
verify_history_proof-inv env s player_id entry proof e =
    elim (Option-cases (s.history_root player_id)) [
      | inl missing ↦ ground arith
      | inr (root, stored) ↦
          let agreed : hash_eq (compute_root_from_proof env.host entry proof) root ≡ true =
            ground arith in
          (root, stored, hash_eq_sound _ _ agreed)
    ]

-- If `verify_history_proof` accepts an entry for a player whose history is stored, the entry is one of
-- that history: up to collisions of the 32-byte hash among the strings hashed, for a proof of 32-byte
-- siblings, an injective address encoding, and entries within the widths of their fields.
pub verify_history_proof_sound :
    (env : Env) (s : State) (player_id : ℕ) (history : List ProgressEntry) (entry : ProgressEntry)
    (proof : List HistoryProofStep)
    → ((x : List ℕ) → length (env.host.sha256 x) ≡ 32)
    → ((a b : Address) → env.host.address_xdr a ≡ env.host.address_xdr b → a ≡ b)
    → NoCollision env.host history entry proof
    → AreHashes proof
    → Fits entry
    → ((i : ℕ) (e : ProgressEntry) → get_elem? history i ≡ some e → Fits e)
    → HasHistory env.host s player_id history
    → verify_history_proof env player_id entry proof s ≡ ok (true, s)
    → (i : ℕ) × (get_elem? history i ≡ some entry)
verify_history_proof_sound env s player_id history entry proof wide distinct free s32 fits all_fit h
      accepted =
    let (root, stored, agreed) = verify_history_proof-inv env s player_id entry proof accepted in
    let committed = subst (RootHolds env.host history) stored h.root in
    let some_leaf : 0 < length history = elim (dec_lt 0 (length history)) [
      | yes b ↦ b
      | no none_left ↦ cc (
        committed,
        mth_range-none env.host (leaf_hashes env.host history) (length history) (omega arith),
      )
    ] in
    let (i, e, ex, same) =
      entry_committed env.host history wide entry proof s32 free some_leaf
        (committed ∙ ap some (sym agreed)) in
    (
      i,
      ex
          ∙ ap some
              (sym (leaf_bytes_injective env.host distinct entry e fits (all_fit i e ex) same)),
    )
